-- ===== src/Reorg/Triple.antt =====
-- Pre- and postconditions of the code that runs on the decoder's state.
use xchain_decoder.Prelude.{◌≡◌, refl, Bool, true, false, Option, none, some, Result, err, ok}
use xchain_decoder.Reorg.{Decoder, Run, Thrown, return, throw, attempt, modify, get_state, ◌>>=◌}
use xchain_decoder.Prelude.{if◌then◌else◌}

module _ {A : Type 0} where
  -- What holds of the state after a return, and what after a throw.
  abbrev pub Post : (A → Decoder → Type 0) → (Decoder → Type 0) → Result Thrown A × Decoder → Type 0
  Post Q E (err e, u) = E u
  Post Q E (ok a, u) = Q a u

  abbrev pub Triple :
      (Decoder → Type 0) → Run A → (A → Decoder → Type 0) → (Decoder → Type 0) → Type 0
  Triple P m Q E = (s : Decoder) → P s → Post Q E (m s)

  pub Post_mono :
      (Q R : A → Decoder → Type 0) (E F : Decoder → Type 0) (r : Result Thrown A × Decoder)
      → ((a : A) (u : Decoder) → Q a u → R a u)
      → ((u : Decoder) → E u → F u)
      → Post Q E r
      → Post R F r
  Post_mono Q R E F (err e, u) q f h = f u h
  Post_mono Q R E F (ok a, u) q f h = q a u h

  -- Whatever is returned or thrown.
  abbrev pub Keeps : (Decoder → Type 0) → Run A → Type 0
  Keeps P m = Triple P m (λ a. P) P

  pub Post_always :
      (P : Decoder → Type 0) (r : Result Thrown A × Decoder) → Post (λ a. P) P r → P (r.1)
  Post_always P (err e, u) h = h
  Post_always P (ok a, u) h = h

module _ {A B : Type 0} where
  pub bind_rule :
      (P : Decoder → Type 0) (m : Run A) (f : A → Run B) (Q : A → Decoder → Type 0)
      (R : B → Decoder → Type 0) (E : Decoder → Type 0)
      → Triple P m Q E
      → ((a : A) → Triple (Q a) (f a) R E)
      → Triple P (m >>= f) R E
  unfolding ◌>>=◌
  bind_rule P m f Q R E t u s p = settle (m s) (t s p)
    where
      settle :
          (r : Result Thrown A × Decoder) → Post Q E r → Post R E (((λ (v : Decoder). r) >>= f) s)
      settle (err e, v) h = h
      settle (ok a, v) h = u a v h

module _ {A : Type 0} where
  pub attempt_rule :
      (P : Decoder → Type 0) (m : Run A) (Q : A → Decoder → Type 0) (E : Decoder → Type 0)
      (R : Option A → Decoder → Type 0)
      → Triple P m Q E
      → ((a : A) (u : Decoder) → Q a u → R (some a) u)
      → ((u : Decoder) → E u → R none u)
      → Triple P (attempt m) R P
  unfolding attempt
  attempt_rule P m Q E R t some_case none_case s p = settle (m s) (t s p)
    where
      settle : (r : Result Thrown A × Decoder) → Post Q E r → Post R P (attempt (λ u. r) s)
      settle (err e, u) h = none_case u h
      settle (ok a, u) h = some_case a u h

module _ {A : Type 0} where
  pub return_rule :
      (P : Decoder → Type 0) (a : A) (Q : A → Decoder → Type 0) (E : Decoder → Type 0)
      → ((s : Decoder) → P s → Q a s)
      → Triple P (return a) Q E
  unfolding return
  return_rule P a Q E h = h

  pub throw_rule :
      (P : Decoder → Type 0) (e : Thrown) (Q : A → Decoder → Type 0) (E : Decoder → Type 0)
      → ((s : Decoder) → P s → E s)
      → Triple P (throw e) Q E
  unfolding throw
  throw_rule P e Q E h = h

  pub if_rule :
      (P : Decoder → Type 0) (b : Bool) (m n : Run A) (Q : A → Decoder → Type 0)
      (E : Decoder → Type 0)
      → (b ≡ true → Triple P m Q E)
      → (b ≡ false → Triple P n Q E)
      → Triple P (if b then m else n) Q E
  if_rule P true m n Q E t f = t refl
  if_rule P false m n Q E t f = f refl

  pub Triple_mono :
      (P : Decoder → Type 0) (m : Run A) (Q R : A → Decoder → Type 0) (E F : Decoder → Type 0)
      → Triple P m Q E
      → ((a : A) (u : Decoder) → Q a u → R a u)
      → ((u : Decoder) → E u → F u)
      → Triple P m R F
  Triple_mono P m Q R E F t q f s p = Post_mono Q R E F (m s) q f (t s p)

pub modify_rule :
    (P : Decoder → Type 0) (f : Decoder → Decoder) (Q : Decoder → Type 0) (E : Decoder → Type 0)
    → ((s : Decoder) → P s → Q (f s))
    → Triple P (modify f) (λ done. Q) E
unfolding modify
modify_rule P f Q E h = h

-- The state that is read is the state that the rest runs in.
pub read_rule :
    {B : Type 0} (P : Decoder → Type 0) (f : Decoder → Run B) (R : B → Decoder → Type 0)
    (E : Decoder → Type 0)
    → ((s : Decoder) → P s → Post R E (f s s))
    → Triple P (get_state >>= f) R E
unfolding get_state ◌>>=◌
read_rule P f R E h = h
