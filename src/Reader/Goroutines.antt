-- ===== src/Reader/Goroutines.antt =====
-- The goroutines that `Start` (bfe_log_reader/pb_log_reader.go) starts for one module: each runs
-- `Update` on its batch, and they and what else runs beside them take their turns in any order. A turn
-- of `Update` is its loop body for one record; each of its increments and its send is atomic, and the
-- increments commute with those of the other goroutines.
use log_reader.Prelude.{
  ℕ, zero, suc, Bool, if◌then◌else◌, ◌+◌, List, [], ◌∷◌, ◌++◌, Option, none, some, ◌≡◌, refl, ◌∙◌,
  ◌≤◌, arith, concat, length,
}

-- The next record of the i-th goroutine, and what is left to all of them.
unfoldable pub next_record {ℓ} : {A : Type ℓ} → ℕ → List (List A) → Option (A × List (List A))
next_record i [] = none
next_record zero ([] ∷ bs) = none
next_record zero ((a ∷ b) ∷ bs) = some (a, b ∷ bs)
next_record (suc i) (b ∷ bs) = elim (next_record i bs) [
  | none ↦ none
  | some (a, rest) ↦ some (a, b ∷ rest)
]

-- `takes i` is a turn of the i-th goroutine, the other one of something that runs beside them.
pub data Turn (E : Type 0) : Type 0 where
  takes : ℕ → Turn E
  meanwhile : E → Turn E

module _ {A S E : Type 0} (update_one : A → S → S) (act : E → S → S) where
  -- A goroutine with no record left has returned.
  abbrev pub took : Option (A × List (List A)) → List (List A) × S → List (List A) × S
  took none s = s
  took (some (a, rest)) (bs, s) = (rest, update_one a s)

  unfoldable pub turn : Turn E → List (List A) × S → List (List A) × S
  unfolding next_record
  turn (takes i) (bs, s) = took (next_record i bs) (bs, s)
  turn (meanwhile e) (bs, s) = (bs, act e s)

  -- The records that are left, and the module, after some turns.
  unfoldable pub goroutines : List (Turn E) → List (List A) × S → List (List A) × S
  unfolding turn
  goroutines [] s = s
  goroutines (t ∷ ts) s = goroutines ts (turn t s)

  -- What every turn keeps.
  module _ (P : S → Type 0) (takes_keep : (a : A) (s : S) → P s → P (update_one a s))
      (others_keep : (e : E) (s : S) → P s → P (act e s)) where
    took-keeps :
        (o : Option (A × List (List A))) (bs : List (List A)) (s : S) → P s → P (took o (bs, s)).1
    took-keeps none bs s h = h
    took-keeps (some (a, rest)) bs s h = takes_keep a s h

    turn-keeps : (t : Turn E) (bs : List (List A)) (s : S) → P s → P (turn t (bs, s)).1
    unfolding turn
    turn-keeps (takes i) bs s h = took-keeps (next_record i bs) bs s h
    turn-keeps (meanwhile e) bs s h = others_keep e s h

    pub goroutines-keeps :
        (ts : List (Turn E)) (bs : List (List A)) (s : S) → P s → P (goroutines ts (bs, s)).1
    unfolding goroutines
    goroutines-keeps [] bs s h = h
    goroutines-keeps (t ∷ ts) bs s h =
        let (bs', s') = turn t (bs, s) in goroutines-keeps ts bs' s' (turn-keeps t bs s h)

-- The sum of a weight over a list.
abbrev pub total {ℓ} : {A : Type ℓ} → (A → ℕ) → List A → ℕ
total f [] = 0
total f (x ∷ xs) = f x + total f xs

-- Whether an element has a property, as a number.
abbrev pub holds {ℓ} : {A : Type ℓ} → (A → Bool) → A → ℕ
holds p x = if p x then 1 else 0

pub total-append {ℓ} :
    {A : Type ℓ} (f : A → ℕ) (xs ys : List A) → total f (xs ++ ys) ≡ total f xs + total f ys
total-append f [] ys = omega arith
total-append f (x ∷ xs) ys = omega (arith, total-append f xs ys)

pub total-ones {ℓ} : {A : Type ℓ} (xs : List A) → total (λ _. 1) xs ≡ length xs
total-ones [] = refl
total-ones (x ∷ xs) = omega (arith, total-ones xs)

module _ {A : Type 0} (f : A → ℕ) where
  -- One record has gone from one of the lists.
  abbrev Picked : List (List A) → Option (A × List (List A)) → Type 0
  Picked bs none = Unit {0}
  Picked bs (some (a, rest)) = f a + total f (concat rest) ≡ total f (concat bs)

  next_record-Picked : (i : ℕ) (bs : List (List A)) → Picked bs (next_record i bs)
  unfolding next_record
  next_record-Picked zero [] = tt
  next_record-Picked (suc i) [] = tt
  next_record-Picked zero ([] ∷ bs) = tt
  next_record-Picked zero ((a ∷ b) ∷ bs) = refl
  next_record-Picked (suc i) (b ∷ bs) = later (next_record i bs) (next_record-Picked i bs)
    where
      later :
          (o : Option (A × List (List A)))
          → Picked bs o
          → Picked (b ∷ bs) (elim o [ none ↦ none | some (a, rest) ↦ some (a, b ∷ rest) ])
      later none h = tt
      later (some (a, rest)) h =
          omega (arith, h, total-append f b (concat rest), total-append f b (concat bs))

  module _ {S E : Type 0} (update_one : A → S → S) (act : E → S → S) (g : S → ℕ)
      (others_keep : (e : E) (s : S) → g (act e s) ≡ g s) where
    -- A measure that grows by the weight of each record, or by at most so much.
    module _ (adds : (a : A) (s : S) → g (update_one a s) ≡ g s + f a) where
      turn-adds :
          (t : Turn E) (bs : List (List A)) (s : S)
          → let r : List (List A) × S = turn update_one act t (bs, s) in
            g r.1 + total f (concat r.0) ≡ g s + total f (concat bs)
      unfolding turn
      turn-adds (meanwhile e) bs s = omega (arith, others_keep e s)
      turn-adds (takes i) bs s = one (next_record i bs) (next_record-Picked i bs)
        where
          one :
              (o : Option (A × List (List A)))
              → Picked bs o
              → let r : List (List A) × S = took update_one act o (bs, s) in
                g r.1 + total f (concat r.0) ≡ g s + total f (concat bs)
          one none h = refl
          one (some (a, rest)) h = omega (arith, h, adds a s)

      pub goroutines-adds :
          (ts : List (Turn E)) (bs : List (List A)) (s : S)
          → let r : List (List A) × S = goroutines update_one act ts (bs, s) in
            g r.1 + total f (concat r.0) ≡ g s + total f (concat bs)
      unfolding goroutines
      goroutines-adds [] bs s = refl
      goroutines-adds (t ∷ ts) bs s =
          let r : List (List A) × S = turn update_one act t (bs, s) in
          goroutines-adds ts r.0 r.1 ∙ turn-adds t bs s

    module _ (adds_at_most : (a : A) (s : S) → g (update_one a s) ≤ g s + f a) where
      turn-bounds :
          (t : Turn E) (bs : List (List A)) (s : S)
          → let r : List (List A) × S = turn update_one act t (bs, s) in
            g r.1 + total f (concat r.0) ≤ g s + total f (concat bs)
      unfolding turn
      turn-bounds (meanwhile e) bs s = omega (arith, others_keep e s)
      turn-bounds (takes i) bs s = one (next_record i bs) (next_record-Picked i bs)
        where
          one :
              (o : Option (A × List (List A)))
              → Picked bs o
              → let r : List (List A) × S = took update_one act o (bs, s) in
                g r.1 + total f (concat r.0) ≤ g s + total f (concat bs)
          one none h = omega arith
          one (some (a, rest)) h = omega (arith, h, adds_at_most a s)

      pub goroutines-bounds :
          (ts : List (Turn E)) (bs : List (List A)) (s : S)
          → let r : List (List A) × S = goroutines update_one act ts (bs, s) in
            g r.1 + total f (concat r.0) ≤ g s + total f (concat bs)
      unfolding goroutines
      goroutines-bounds [] bs s = omega arith
      goroutines-bounds (t ∷ ts) bs s =
          let r : List (List A) × S = turn update_one act t (bs, s) in
          omega (arith, goroutines-bounds ts r.0 r.1, turn-bounds t bs s)
