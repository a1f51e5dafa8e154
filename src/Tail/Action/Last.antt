-- ===== src/Tail/Action/Last.antt =====
-- What an interrupt does to `tailLastN`.
use log_reader.Prelude.{
  ℕ, zero, suc, ◌+◌, ◌≤◌, Bool, true, false, List, [], ◌∷◌, Option, none, some, Result, ok, err,
  ◌≡◌, refl, sym, ◌∙◌, arith, leb, leb→le, ◌==◌, if◌then◌else◌, if_elim, if_elim_eq, false≢true,
  length, Bool-cases, inl, inr, ℤ, pos, negsuc,
}
use log_reader.Fields.Log.{BfeLog}
use log_reader.Reader.Parse.{Codec}
use log_reader.Tail.LastN.{
  TailError, stat_fails, TailFile, TailOutcome, emit_all, keep_last, give_out, tail_chunks,
  tail_last_n,
}

-- The callback's calls in `tailLastN`.
emit_all-bound :
    (fails : ℕ → Bool) (c k : ℕ) (rs : List BfeLog)
    → ((j : ℕ) → c ≤ j → fails j ≡ true)
    → k ≤ c
    → let out : List BfeLog × Bool = emit_all fails k rs in
      (k + length out.0 ≤ suc c) × (out.1 ≡ true → k + length out.0 ≤ c)
unfolding emit_all
emit_all-bound fails c k [] stops le = (omega arith, λ e. omega arith)
emit_all-bound fails c k (r ∷ rs) stops le =
    if_elim_eq
      (λ (out : List BfeLog × Bool).
        (k + length out.0 ≤ suc c) × (out.1 ≡ true → k + length out.0 ≤ c))
      (fails k) (r ∷ [], false) _ (λ t. (omega arith, λ e. cc))
      (λ f. elim (Bool-cases (leb c k)) [
        | inl t ↦ absurd (false≢true (sym f ∙ stops k (leb→le c k t)))
        | inr u ↦
            let (a, b) = emit_all-bound fails c (suc k) rs stops (ground (arith, u, le)) in
            (omega (arith, a), λ e. omega (arith, b e))
      ])

-- What `tailLastN` has given out: at most c records if the callback did not end it.
abbrev pub LastBound : ℕ → Option TailOutcome → Type 0
LastBound c none = Unit {0}
LastBound c (some out) =
    (length out.emitted ≤ suc c) × ((v : ℕ × ℕ) → out.answer ≡ ok v → length out.emitted ≤ c)

module _ (fails : ℕ → Bool) (c : ℕ) (stops : (j : ℕ) → c ≤ j → fails j ≡ true) where
  give_out-LastBound :
      (n : ℕ) (f : TailFile) (o : Option (Result TailError (List BfeLog)))
      → LastBound c (give_out fails n f o)
  give_out-LastBound n f none = tt
  give_out-LastBound n f (some (err e)) = (omega arith, λ v e. omega arith)
  give_out-LastBound n f (some (ok parsed)) =
      let (a, b) = emit_all-bound fails c 0 (keep_last n parsed) stops (omega arith) in
      (omega (arith, a), λ v e. answered (emit_all fails 0 (keep_last n parsed)) v b e)
    where
      answered :
          (out : List BfeLog × Bool) (v : ℕ × ℕ)
          → (out.1 ≡ true → 0 + length out.0 ≤ c)
          → (if out.1 then ok (length f.content, f.inode) else err TailError.emit_fails) ≡ ok v
          → length out.0 ≤ c
      answered (rs, true) v h e = omega (arith, h refl)
      answered (rs, false) v h e = cc

  pub tail_last_n-LastBound :
      (codec : Codec) (f : TailFile) (n : ℤ) → LastBound c (tail_last_n codec fails f n)
  unfolding tail_last_n tail_chunks
  tail_last_n-LastBound codec f (negsuc n) = (omega arith, λ v e. omega arith)
  tail_last_n-LastBound codec f (pos zero) = (omega arith, λ v e. omega arith)
  tail_last_n-LastBound codec f (pos (suc n)) =
      if_elim (LastBound c) f.opens _
        (some (record { emitted = []; answer = err TailError.open_fails }))
        (if_elim (LastBound c) f.stats _ (some (record { emitted = []; answer = err stat_fails }))
          (if_elim (LastBound c) (length f.content == 0)
            (some (record { emitted = []; answer = ok (0, f.inode) })) _
            (omega arith, λ v e. omega arith) (give_out-LastBound (suc n) f _))
          (omega arith, λ v e. omega arith))
        (omega arith, λ v e. omega arith)
