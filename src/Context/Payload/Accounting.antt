-- ===== src/Context/Payload/Accounting.antt =====
-- context/renderers.py: the tokens that a payload states are the tokens that it has.
use memory_os.Base.{
  ℕ, zero, suc, ◌-◌, ◌≡◌, refl, String, true, ◌==◌, ==_iff, arith, ok, >>=-eq-ok, Bool-cases, inl,
  inr, ok-injective, subst,
}
use memory_os.Context.Payload.{
  TokenCounter, Payload, max_rounds, delta_part, count_json, is_accounted, settle,
  stabilize_payload_usage, settle_full, stabilize_full_payload,
}

-- The usage of a payload is right: it counts the payload as it is delivered.
pub record IsAccounted (counter : TokenCounter) (canonical_json : Payload → String) (p : Payload)
    : Type 0 where
  pub delivered : p.usage.delivered_payload_tokens ≡ count_json counter canonical_json p
  pub overhead :
      p.usage.payload_overhead_tokens
      ≡ count_json counter canonical_json p - p.usage.context_text_tokens
  pub delta : p.usage.delta_tokens ≡ delta_part p.mode (count_json counter canonical_json p)

-- Two payloads differ in their usage at most.
abbrev pub SameContent : Payload → Payload → Type 0
SameContent p q = p ≡ record q { usage = p.usage }

module _ (counter : TokenCounter) (canonical_json : Payload → String) where
  accounted_test :
      (p : Payload)
      → is_accounted counter canonical_json p (count_json counter canonical_json p) ≡ true
      → IsAccounted counter canonical_json p
  unfolding is_accounted
  accounted_test p h = ground (arith, h)

  settle-accounted :
      (rounds : ℕ) (p : Payload) {q : Payload}
      → settle counter canonical_json rounds p ≡ ok q
      → IsAccounted counter canonical_json q
        × SameContent q p
        × (q.usage.context_text_tokens ≡ p.usage.context_text_tokens)
  unfolding settle
  settle-accounted zero p h = cc
  settle-accounted (suc rounds) p {q} h =
      elim (Bool-cases
        (is_accounted counter canonical_json p (count_json counter canonical_json p))) [
          | inl e ↦
              let same : p ≡ q = ok-injective (rw (e, settle) at h) in
              subst
                (λ r.
                  IsAccounted counter canonical_json r
                  × SameContent r p
                  × (r.usage.context_text_tokens ≡ p.usage.context_text_tokens))
                same (accounted_test p e, ground arith, refl)
          | inr e ↦
              let (fixed, same, text) = settle-accounted rounds _ (rw (e, settle) at h) in
              (fixed, ground (arith, same), text)
        ]

  pub stabilize_payload_usage-accounted :
      (p : Payload) {q : Payload}
      → stabilize_payload_usage counter canonical_json p ≡ ok q
      → IsAccounted counter canonical_json q
        × SameContent q p
        × (q.usage.context_text_tokens ≡ counter.count_text p.text)
  unfolding stabilize_payload_usage
  stabilize_payload_usage-accounted p h =
      let (fixed, same, text) = settle-accounted max_rounds _ h in
      (fixed, ground (arith, same), text)

  settle_full-accounted :
      (rounds : ℕ) (p : Payload) {q : Payload}
      → settle_full counter canonical_json rounds p ≡ ok q
      → IsAccounted counter canonical_json q
        × SameContent q p
        × (q.usage.context_text_tokens ≡ counter.count_text p.text)
        × (q.usage.full_context_tokens ≡ q.usage.delivered_payload_tokens)
  unfolding settle_full
  settle_full-accounted zero p h = cc
  settle_full-accounted (suc rounds) p {q} h =
      let (c, stable, rest) = >>=-eq-ok (stabilize_payload_usage counter canonical_json p) _ h in
      let (fixed, same, text) = stabilize_payload_usage-accounted p stable in
      elim (Bool-cases (c.usage.full_context_tokens == c.usage.delivered_payload_tokens)) [
        | inl e ↦
            let done : c ≡ q = ok-injective (rw e at rest) in
            subst
              (λ r.
                IsAccounted counter canonical_json r
                × SameContent r p
                × (r.usage.context_text_tokens ≡ counter.count_text p.text)
                × (r.usage.full_context_tokens ≡ r.usage.delivered_payload_tokens))
              done (fixed, same, text, (==_iff _ _).0 e)
        | inr e ↦
            let (fixed', same', text', full') = settle_full-accounted rounds _ (rw e at rest) in
            (fixed', ground (arith, same, same'), ground (arith, same, text'), full')
      ]

  -- A full payload that the compiler returns states the tokens that it has: its delivered tokens and
  -- its full-context tokens are the count of the payload with these very numbers in it, its text
  -- tokens the count of its text, and nothing but its usage has changed.
  pub stabilize_full_payload-accounted :
      (p : Payload) {q : Payload}
      → stabilize_full_payload counter canonical_json p ≡ ok q
      → IsAccounted counter canonical_json q
        × SameContent q p
        × (q.usage.context_text_tokens ≡ counter.count_text p.text)
        × (q.usage.full_context_tokens ≡ q.usage.delivered_payload_tokens)
  unfolding stabilize_full_payload
  stabilize_full_payload-accounted p h = settle_full-accounted max_rounds p h
