-- ===== src/Server/Collector/Window.antt =====
-- The collected output is the start of what was appended, however it was cut into chunks.
use ptymux.Server.Collector.{RunCollector, append_bounded, append_output}
use ptymux.Prelude.{
  ℕ, zero, suc, ◌+◌, ◌-◌, ◌≤◌, ◌≡◌, refl, ap, ◌∙◌, inl, inr, true, [], ◌∷◌, ◌++◌, arith, ltb, leb,
  if◌then◌else◌, leb→le, Bool-cases, length, take, length-append, length-take, take-of-length-le,
  Bytes, if-intro, take-append-of-le,
}

-- The collector keeps the first bytes of a text, and knows whether these are all.
pub record IsWindow (c : RunCollector) (text : Bytes) : Type 0 where
  pub kept : c.output ≡ take c.limit text
  pub cut : c.truncated ≡ ltb c.limit (length text)

take-append-short :
    (n : ℕ) (xs ys : Bytes) → length xs ≤ n → take n (xs ++ ys) ≡ xs ++ take (n - length xs) ys
take-append-short n [] ys h = ap (λ k. take k ys) (omega arith)
take-append-short zero (x ∷ xs) ys h = absurd (omega arith)
take-append-short (suc n) (x ∷ xs) ys h =
    ap (◌∷◌ x) (take-append-short n xs ys (omega arith) ∙ ap (λ k. xs ++ take k ys) (omega arith))

-- What a full or a partial window becomes, and whether this step left bytes out.
append_bounded-take :
    (text chunk : Bytes) (n : ℕ)
    → append_bounded (take n text) chunk n ≡ (
      take n (text ++ chunk),
      (if leb n (length text) then ltb 0 (length chunk) else ltb n (length text + length chunk)),
    )
unfolding append_bounded
append_bounded-take text chunk n = elim (Bool-cases (leb n (length text))) [
  | inl e ↦
      let full : leb n (length (take n text)) ≡ true = ground (arith, length-take n text) in
      rw (take-append-of-le n text chunk (leb→le n (length text) e)) (rw full (rw e refl))
  | inr e ↦
      let all : take n text ≡ text = take-of-length-le n text (ground arith) in
      rw all (
        rw e (
          rw (take-append-short n text chunk (ground arith)) (
            if-intro
              (λ r. r ≡ (text ++ take (n - length text) chunk, ltb n (length text + length chunk)))
              (ltb (n - length text) (length chunk))
              (λ h. ap (λ b. (text ++ take (n - length text) chunk, b)) (ground arith))
              (λ h.
                rw (take-of-length-le (n - length text) chunk (ground arith))
                  (ap (λ b. (text ++ chunk, b)) (ground arith))))))
]

-- A collector that holds the window of a text holds, after more output, the window of the longer
-- text: as much of it as the limit allows, and truncated exactly if that is not all.
pub append_output-IsWindow :
    (c : RunCollector) (text chunk : Bytes)
    → IsWindow c text
    → IsWindow (append_output c chunk) (text ++ chunk)
unfolding append_output
append_output-IsWindow c text chunk w =
    let step =
      ap (λ o. append_bounded o chunk c.limit) w.kept ∙ append_bounded-take text chunk c.limit in
    record {
      kept = ap (λ r. r.0) step;
      cut =
          ap (λ r. if r.1 then true else c.truncated) step
          ∙ ap
              (λ t.
                if (if leb c.limit (length text)
                  then ltb 0 (length chunk)
                  else ltb c.limit (length text + length chunk))
                then true
                else t)
              w.cut
          ∙ ground (arith, length-append text chunk);
    }
