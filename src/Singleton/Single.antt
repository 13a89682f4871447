-- ===== src/Singleton/Single.antt =====
-- A singleton over the run of a program, up to its exit and behind it.
use turbo_net.Common.{◌≡◌, ◌≢◌, Bool, true, false, not, List, [], ◌∷◌, none, some, done}
use turbo_net.Singleton.{Once, make_once, instance_of, run_at_exit}

-- `handed` are the objects that `Instance` returned, the latest first, and `over` is whether the
-- functions of the exit were run.
pub record Run {ℓ} (A : Type ℓ) : Type ℓ where
  pub once : Once A
  pub handed : List A
  pub over : Bool

abbrev pub start {ℓ} : {A : Type ℓ} → Run A
start = record { once = make_once; handed = []; over = false }

-- Calls of `Instance` before the exit, each with the object that its arguments would make, and the
-- exit.
pub data Step {ℓ} {A : Type ℓ} (no_destroy : Bool) (s : Run A) : Run A → Type ℓ where
  gets :
      (v a : A) (o : Once A)
      → s.over ≡ false
      → instance_of no_destroy s.once v ≡ done (o, a)
      → Step no_destroy s (record s { once = o; handed = a ∷ s.handed })
  exits :
      (o : Once A)
      → s.over ≡ false
      → run_at_exit s.once ≡ done o
      → Step no_destroy s (record s { once = o; over = true })

pub data Reach {ℓ} {A : Type ℓ} (no_destroy : Bool) : Run A → Type ℓ where
  here : Reach no_destroy start
  next : {s q : Run A} → Reach no_destroy s → Step no_destroy s q → Reach no_destroy q

abbrev pub AllAre {ℓ} : {A : Type ℓ} → A → List A → Type ℓ
AllAre a [] = Unit {ℓ}
AllAre a (x ∷ xs) = (x ≡ a) × AllAre a xs

-- The three phases: no call yet, an object, and an object that was destroyed.
pub data Phase {ℓ} {A : Type ℓ} (no_destroy : Bool) (s : Run A) : Type ℓ where
  unmade :
      s.once.called ≡ false
      → s.once.value ≡ none
      → s.once.at_exit ≡ false
      → s.handed ≡ []
      → Phase no_destroy s
  made :
      (a : A)
      → s.once.called ≡ true
      → s.once.value ≡ some a
      → AllAre a s.handed
      → s.once.at_exit ≡ not no_destroy
      → Phase no_destroy s
  destroyed :
      (a : A)
      → s.once.called ≡ true
      → s.once.value ≡ none
      → AllAre a s.handed
      → s.over ≡ true
      → Phase no_destroy s

abbrev pub Same {ℓ} : {A : Type ℓ} → List A → Type ℓ
Same [] = Unit {ℓ}
Same (a ∷ rest) = AllAre a rest

module _ {ℓ} {A : Type ℓ} (no_destroy : Bool) where
  -- What a program sees of a singleton: `Instance` returned one object; before the exit its next
  -- call returns that one; and the exit returns, and destroys an object that was handed
  -- out.
  pub record Behaves (s : Run A) : Type ℓ where
    pub one : Same s.handed
    pub returns :
        s.over ≡ false
        → (v : A)
        → (o : Once A) × (a : A) × (instance_of no_destroy s.once v ≡ done (o, a))
          × AllAre a s.handed
    pub ends :
        s.over ≡ false
        → (o : Once A) × (run_at_exit s.once ≡ done o)
          × ((a : A) (rest : List A)
              → s.handed ≡ a ∷ rest
              → (v : A) (q : Once A × A) → instance_of no_destroy o v ≢ done q)
