-- ===== src/Network/Poller/Calls.antt =====
-- Which handlers `processPendingEvents` of libs/network/event_poller.cpp calls.
use x_kbengine.Prelude.{
  ◌≡◌, refl, sym, ap, subst, ◌∙◌, Bool, true, false, not, ◌&&◌, ◌||◌, Option, none, some, List, [],
  ◌∷◌, ◌++◌, arith, if◌then◌else◌, Outcome, ok, ◌>>=◌, append_assoc, append-nil,
}
use x_kbengine.Network.Poller.{Fd, Events, Epoll, Poller, is_some}
use x_kbengine.Network.Poller.Coherent.{IsCoherent, wanted}
use x_kbengine.Network.Poller.Dispatch.{
  Event, Site, trigger_read, trigger_write, trigger_error, process_event, process_events,
}

-- A handler that is called, with the descriptor it is told.
pub data Call (I O : Type 0) : Type 0 where
  read_call : I → Fd → Call I O
  write_call : O → Fd → Call I O

-- An event that asks for no more than the kernel was told to watch.
abbrev pub is_reported : Option Events → Event → Bool
is_reported none ev = false
is_reported (some i) ev = (not ev.ready.input || i.input) && (not ev.ready.output || i.output)

abbrev pub AllReported : (e : Epoll) → e.Kernel → List Event → Type 0
AllReported e k [] = Unit
AllReported e k (ev ∷ events) =
    (is_reported (e.interest k ev.fd) ev ≡ true) × AllReported e k events

module _ {I O : Type 0} where
  abbrev read_calls : Fd → Option I → List (Call I O)
  read_calls fd none = []
  read_calls fd (some h) = read_call h fd ∷ []

  abbrev write_calls : Fd → Option O → List (Call I O)
  write_calls fd none = []
  write_calls fd (some h) = write_call h fd ∷ []

  abbrev error_calls : Fd → Option I → Option O → List (Call I O)
  error_calls fd none o = write_calls fd o
  error_calls fd (some h) o = read_call h fd ∷ []

  abbrev calls_at : Event → Option I → Option O → List (Call I O)
  calls_at ev i o =
      if ev.hang_up
      then error_calls ev.fd i o
      else (if ev.ready.input then read_calls ev.fd i else [])
        ++ (if ev.ready.output then write_calls ev.fd o else [])

-- The calls that an event is to bring. For an error, the handler to read is called, and the one to write
-- if there is none to read; otherwise first the one to read, and then the one to write, as the event says.
pub data Answered {K I O : Type 0} (p : Poller K I O) (ev : Event) : List (Call I O) → Type 0 where
  error_read :
      (h : I)
      → ev.hang_up ≡ true
      → p.read_handlers ev.fd ≡ some h
      → Answered p ev (read_call h ev.fd ∷ [])
  error_write :
      (h : O)
      → ev.hang_up ≡ true
      → p.read_handlers ev.fd ≡ none
      → p.write_handlers ev.fd ≡ some h
      → Answered p ev (write_call h ev.fd ∷ [])
  nothing : ev.hang_up ≡ false → ev.ready.input ≡ false → ev.ready.output ≡ false → Answered p ev []
  reads :
      (h : I)
      → ev.hang_up ≡ false
      → ev.ready.input ≡ true
      → ev.ready.output ≡ false
      → p.read_handlers ev.fd ≡ some h
      → Answered p ev (read_call h ev.fd ∷ [])
  writes :
      (h : O)
      → ev.hang_up ≡ false
      → ev.ready.input ≡ false
      → ev.ready.output ≡ true
      → p.write_handlers ev.fd ≡ some h
      → Answered p ev (write_call h ev.fd ∷ [])
  reads_and_writes :
      (h : I) (h' : O)
      → ev.hang_up ≡ false
      → ev.ready.input ≡ true
      → ev.ready.output ≡ true
      → p.read_handlers ev.fd ≡ some h
      → p.write_handlers ev.fd ≡ some h'
      → Answered p ev (read_call h ev.fd ∷ write_call h' ev.fd ∷ [])

pub data AllAnswered {K I O : Type 0} (p : Poller K I O)
    : List Event → List (Call I O) → Type 0 where
  no_events : AllAnswered p [] []
  an_event :
      (ev : Event) (events : List Event) (now later : List (Call I O))
      → Answered p ev now
      → AllAnswered p events later
      → AllAnswered p (ev ∷ events) (now ++ later)

module _ {K I O : Type 0} (p : Poller K I O) (ev : Event) where
  calls_at-Answered :
      (hu inp out : Bool) (i : Option I) (o : Option O)
      → ev.hang_up ≡ hu
      → ev.ready.input ≡ inp
      → ev.ready.output ≡ out
      → p.read_handlers ev.fd ≡ i
      → p.write_handlers ev.fd ≡ o
      → is_reported (wanted (is_some i) (is_some o)) ev ≡ true
      → Answered p ev (
          if hu
          then error_calls ev.fd i o
          else (if inp then read_calls ev.fd i else [])
            ++ (if out then write_calls ev.fd o else []))
  calls_at-Answered hu inp out none none a b c d f h = ground (arith, h)
  calls_at-Answered true inp out (some h) o a b c d f r = error_read h a d
  calls_at-Answered true inp out none (some h) a b c d f r = error_write h a d f
  calls_at-Answered false false false (some h) o a b c d f r = nothing a b c
  calls_at-Answered false false false none (some h) a b c d f r = nothing a b c
  calls_at-Answered false true false (some h) o a b c d f r = reads h a b c d
  calls_at-Answered false false true (some h) (some h') a b c d f r = writes h' a b c f
  calls_at-Answered false false true none (some h') a b c d f r = writes h' a b c f
  calls_at-Answered false true true (some h) (some h') a b c d f r = reads_and_writes h h' a b c d f
  calls_at-Answered false false true (some h) none a b c d f r = ground (arith, r, c)
  calls_at-Answered false true true (some h) none a b c d f r = ground (arith, r, c)
  calls_at-Answered false true out none (some h') a b c d f r = ground (arith, r, b)

module _ (e : Epoll) (I O : Type 0) where
  -- Handlers that note each call and do not touch the poller.
  abbrev pub Log : Type 0
  Log = Site e.Kernel I O (List (Call I O))

  abbrev pub noted : List (Call I O) → Log → Log
  noted calls s = record s { world = s.world ++ calls }

  abbrev pub note_read : I → Fd → Log → Outcome Log
  note_read h fd s = ok (noted (read_call h fd ∷ []) s)

  abbrev pub note_write : O → Fd → Log → Outcome Log
  note_write h fd s = ok (noted (write_call h fd ∷ []) s)

  noted_none : (s : Log) → s ≡ noted [] s
  noted_none s = ap (λ w. record s { world = w }) (sym (append-nil s.world))

  -- The calls that follow from the tables' answers.
  abbrev read_with : Fd → Option I → Log → Outcome (Bool × Log)
  read_with fd i s = elim i [
    | none ↦ ok (false, s)
    | some h ↦ note_read h fd s >>= λ t. ok (true, t)
  ]

  abbrev write_with : Fd → Option O → Log → Outcome (Bool × Log)
  write_with fd o s = elim o [
    | none ↦ ok (false, s)
    | some h ↦ note_write h fd s >>= λ t. ok (true, t)
  ]

  read_with-calls :
      (fd : Fd) (b : Bool) (i : Option I) (s : Log) (k : Log → Outcome Log)
      → ((if b then read_with fd i s else ok (false, s)) >>= λ r. k r.1)
        ≡ k (noted (if b then read_calls fd i else []) s)
  read_with-calls fd false i s k = ap k (noted_none s)
  read_with-calls fd true none s k = ap k (noted_none s)
  read_with-calls fd true (some h) s k = refl

  write_with-calls :
      (fd : Fd) (b : Bool) (o : Option O) (s : Log)
      → ((if b then write_with fd o s else ok (false, s)) >>= λ r. ok r.1)
        ≡ ok (noted (if b then write_calls fd o else []) s)
  write_with-calls fd false o s = ap ok (noted_none s)
  write_with-calls fd true none s = ap ok (noted_none s)
  write_with-calls fd true (some h) s = refl

  error_with-calls :
      (fd : Fd) (i : Option I) (o : Log → Option O) (s : Log)
      → (read_with fd i s
          >>= (λ r. if r.0 then ok (true, r.1) else write_with fd (o r.1) r.1)
          >>= λ r. ok r.1)
        ≡ ok (noted (error_calls fd i (o s)) s)
  error_with-calls fd none o s = write_with-calls fd true (o s) s
  error_with-calls fd (some h) o s = refl

  event-calls :
      (ev : Event) (s : Log)
      → process_event note_read note_write ev s
        ≡ ok (noted (calls_at ev (s.poller.read_handlers ev.fd) (s.poller.write_handlers ev.fd)) s)
  unfolding process_event trigger_read trigger_write trigger_error
  event-calls ev s = by_error ev.hang_up
    where
      i : Option I
      i = s.poller.read_handlers ev.fd

      o : Option O
      o = s.poller.write_handlers ev.fd

      first : List (Call I O)
      first = if ev.ready.input then read_calls ev.fd i else []

      then_write : Log → Outcome Log
      then_write t =
          (if ev.ready.output then trigger_write note_read note_write ev.fd t else ok (false, t))
          >>= λ q. ok q.1

      by_error :
          (b : Bool)
          → (if b
              then trigger_error note_read note_write ev.fd s >>= (λ r. ok r.1)
              else (if ev.ready.input
                  then trigger_read note_read note_write ev.fd s
                  else ok (false, s))
                >>= (λ r. then_write r.1))
            ≡ ok (
                noted
                  (if b
                    then error_calls ev.fd i o
                    else first ++ (if ev.ready.output then write_calls ev.fd o else []))
                  s)
      by_error true = error_with-calls ev.fd i (λ t. t.poller.write_handlers ev.fd) s
      by_error false =
          read_with-calls ev.fd ev.ready.input i s then_write
          ∙ write_with-calls ev.fd ev.ready.output o (noted first s)
          ∙ ap (λ w. ok (record s { world = w }))
              (append_assoc s.world first (if ev.ready.output then write_calls ev.fd o else []))

  -- The poller holds handlers for just what the kernel watches, the events ask for no more than what the
  -- kernel was told to watch, and handlers leave the poller alone. Then each event brings its calls, in
  -- the order of the events: for an error one call, of the handler that is registered to read the
  -- descriptor, or of the one to write if there is none to read; otherwise those of the handlers
  -- registered to read and to write, as the event says, reading first. None is lost.
  pub process_events-calls :
      (events : List Event) (s : Log)
      → IsCoherent e s.poller
      → AllReported e s.poller.kernel events
      → (calls : List (Call I O)) × (process_events note_read note_write events s
          ≡ ok (noted calls s))
        × AllAnswered s.poller events calls
  unfolding process_events
  process_events-calls [] s c h =
      ([], ap (λ w. ok (record s { world = w })) (sym (append-nil s.world)), no_events)
  process_events-calls (ev ∷ events) s c (h, hs) =
      let now = calls_at ev (s.poller.read_handlers ev.fd) (s.poller.write_handlers ev.fd) in
      let (later, result, told) = process_events-calls events (noted now s) c hs in
      (
        now ++ later,
        ap (λ m. m >>= process_events note_read note_write events) (event-calls ev s)
            ∙ result
            ∙ ap (λ w. ok (record s { world = w })) (append_assoc s.world now later),
        an_event ev events now later
            (calls_at-Answered s.poller ev ev.hang_up ev.ready.input ev.ready.output
              (s.poller.read_handlers ev.fd) (s.poller.write_handlers ev.fd) refl refl refl refl
              refl (subst (λ i. is_reported i ev ≡ true) (c ev.fd) h))
            told,
      )
