-- ===== src/Script/Objects.antt =====
-- `__py_write` and `__py_flush` of libs/pyscript/scriptstderr.cpp and scriptstdout.cpp, the methods that
-- scripts call on the objects for the streams.
use x_kbengine.Prelude.{
  ℕ, ◌≡◌, refl, Bool, true, false, Bool-cases, ◌||◌, ◌⊎◌, inl, inr, Option, none, some, List, [],
  ◌∷◌, ◌++◌, map, Outcome, ok, fail, undefined, ◌>>=◌, arith,
}
use x_kbengine.Script.{Hook, Output, on_write}
use x_kbengine.Script.Writes.{write_all, joined, write_all-joined}

-- The arguments of a call of `write`: none or several, one object that is no text, or one text.
pub data Arguments : Type 0 where
  bad_args no_text : Arguments
  text : List ℕ → Arguments

-- Whether `None` is returned, not an exception; what there was to do with the hook; a pointer to
-- no text is read through.
unfoldable pub py_write :
    (List ℕ → List ℕ) → Arguments → Option Hook → Output → Outcome (Bool × Option Hook × Output)
py_write narrow bad_args h out = ok (false, h, out)
py_write narrow no_text none out = ok (true, none, out)
py_write narrow no_text (some h) out = fail undefined
py_write narrow (text msg) none out = ok (true, none, out)
py_write narrow (text msg) (some h) out =
    let (h', out') = on_write narrow msg h out in ok (true, some h', out')

unfoldable pub py_flush : Option Hook → Output → Bool × Option Hook × Output
py_flush h out = (true, h, out)

-- Calls of `write` in turn, whatever each returns.
unfoldable pub py_writes :
    (List ℕ → List ℕ) → List Arguments → Option Hook → Output → Outcome (Option Hook × Output)
py_writes narrow [] h out = ok (h, out)
py_writes narrow (args ∷ calls) h out =
    py_write narrow args h out >>= λ r. py_writes narrow calls r.1 r.2

abbrev pub lacks_text : Arguments → Bool
lacks_text bad_args = false
lacks_text no_text = true
lacks_text (text msg) = false

abbrev pub any_lacks : List Arguments → Bool
any_lacks [] = false
any_lacks (args ∷ calls) = lacks_text args || any_lacks calls

-- The messages of the calls that have one.
abbrev pub texts : List Arguments → List (List ℕ)
texts [] = []
texts (bad_args ∷ calls) = texts calls
texts (no_text ∷ calls) = texts calls
texts (text msg ∷ calls) = msg ∷ texts calls

module _ (narrow : List ℕ → List ℕ) where
  py_writes-any_lacks :
      (calls : List Arguments) (h : Hook) (out : Output)
      → any_lacks calls ≡ true
      → py_writes narrow calls (some h) out ≡ fail undefined
  unfolding py_writes py_write
  py_writes-any_lacks [] h out e = ground arith
  py_writes-any_lacks (bad_args ∷ calls) h out e = py_writes-any_lacks calls h out e
  py_writes-any_lacks (no_text ∷ calls) h out e = refl
  py_writes-any_lacks (text msg ∷ calls) h out e =
      let (h', out') = on_write narrow msg h out in py_writes-any_lacks calls h' out' e

  py_writes-write_all :
      (calls : List Arguments) (h : Hook) (out : Output)
      → any_lacks calls ≡ false
      → py_writes narrow calls (some h) out
        ≡ ok (
          some (write_all narrow (texts calls) h out).0,
          (write_all narrow (texts calls) h out).1,
        )
  unfolding py_writes py_write write_all
  py_writes-write_all [] h out e = refl
  py_writes-write_all (bad_args ∷ calls) h out e = py_writes-write_all calls h out e
  py_writes-write_all (no_text ∷ calls) h out e = ground arith
  py_writes-write_all (text msg ∷ calls) h out e =
      let (h', out') = on_write narrow msg h out in py_writes-write_all calls h' out' e

  -- A script calls `write` any number of times on an object whose hook has a buffer. If one of the calls
  -- has an object that is no text, the behaviour is undefined. Otherwise all calls return; those with
  -- wrong arguments change nothing; and of the others' messages nothing is lost or reordered: there are
  -- texts that, followed by what the hook still holds back, are what the hook held followed by the
  -- messages; the log gets each of these texts, converted, and the buffer gets them joined.
  pub py_writes-joined :
      (calls : List Arguments) (h : Hook) (out : Output)
      → h.has_buffer ≡ true
      → ((any_lacks calls ≡ true) × (py_writes narrow calls (some h) out ≡ fail undefined))
        ⊎ ((any_lacks calls ≡ false)
            × ((lines : List (List ℕ)) × (h' : Hook) × (out' : Output) × (py_writes narrow calls
                    (some h)
                    out
                  ≡ ok (some h', out'))
                × (joined lines ++ h'.wbuffer ≡ h.wbuffer ++ joined (texts calls))
                × (out'.logged ≡ out.logged ++ map narrow lines)
                × (out'.buffer ≡ out.buffer ++ joined (map narrow lines))))
  py_writes-joined calls h out b =
      let (lines, held, told, kept) = write_all-joined narrow (texts calls) h out b in
      let r = write_all narrow (texts calls) h out in
      elim (Bool-cases (any_lacks calls)) [
        | inl e ↦ inl (e, py_writes-any_lacks calls h out e)
        | inr e ↦ inr (e, (lines, r.0, r.1, py_writes-write_all calls h out e, held, told, kept))
      ]
