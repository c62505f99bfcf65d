-- ===== src/Argon/Phc/RoundTrip.antt =====
-- A password record that is written is read again.
use crap_os.Base.{
  sym, ap, true, ok, ◌^◌, ℕ, zero, suc, refl, inl, inr, false, List, [], append-nil, arith, All,
  All-append, length, replicate, Bool-cases, ◌-◌, ◌%◌, ◌<◌, ◌≡◌, ◌∷◌, ◌++◌, ◌==◌, ◌∙◌,
}
use crap_os.Argon.Numbers.{u32_to_alloc_string-IsDecimal, parse_u32-IsDecimal, parse_param}
use crap_os.Argon.Phc.{Phc, encode_phc, decode_phc, decode_fields, decode_parts, split, phc_text}
use crap_os.Argon.Phc.Split.{Apart, append_first, split-append}
use crap_os.Helpers.Base64.{base64_encode, base64_encode_unpadded}
use crap_os.Helpers.Base64.Padding.{encode-All, sextet-ne_dollar}
use crap_os.Helpers.Base64.RoundTrip.{decode-encode}
use crap_os.Helpers.Decimal.{IsDecimal, IsDigit}
use crap_os.Tasks.Outcome.{Ends}

replicate-Apart : (separator c k : ℕ) → (c == separator) ≡ false → Apart separator (replicate k c)
replicate-Apart separator c zero h = tt
replicate-Apart separator c (suc k) h = (h, replicate-Apart separator c k h)

-- The digits and the Base64 characters are no separators.
digits-Apart :
    (separator : ℕ) (text : List ℕ) → separator < b'0' → All IsDigit text → Apart separator text
digits-Apart separator [] h all = tt
digits-Apart separator (c ∷ cs) h ((lo, hi), all) = (ground arith, digits-Apart separator cs h all)

encode-Apart : (bytes : List ℕ) → Apart b'$' (base64_encode bytes)
unfolding base64_encode
encode-Apart bytes =
    let plain = encode-All (λ c. (c == b'$') ≡ false) sextet-ne_dollar bytes in
    elim (Bool-cases (length (base64_encode_unpadded bytes) % 4 == 0)) [
      | inl e ↦ rw e plain
      | inr e ↦ rw e (
          All-append (λ c. (c == b'$') ≡ false) (base64_encode_unpadded bytes) _ plain
            (replicate-Apart b'$' b'=' (4 - length (base64_encode_unpadded bytes) % 4) refl))
    ]

-- A last part, and a part before a separator.
split_last : (separator : ℕ) (xs : List ℕ) → Apart separator xs → split separator xs ≡ xs ∷ []
split_last separator xs h =
    let whole : split separator (xs ++ []) ≡ (xs ++ []) ∷ [] =
      split-append separator xs [] h ∙ (unfold split in refl) in
    ap (split separator) (sym (append-nil xs)) ∙ whole ∙ ap (λ t. t ∷ []) (append-nil xs)

split_before :
    (separator : ℕ) (xs ys : List ℕ)
    → Apart separator xs
    → split separator (xs ++ (separator ∷ ys)) ≡ xs ∷ split separator ys
split_before separator xs ys h =
    let same : (separator == separator) ≡ true = ground arith in
    let empty : split separator (separator ∷ ys) ≡ [] ∷ split separator ys =
      unfold split in rw same refl in
    split-append separator xs (separator ∷ ys) h
    ∙ ap (append_first xs) empty
    ∙ ap (λ t. t ∷ split separator ys) (append-nil xs)

abbrev params_text : List ℕ → List ℕ → List ℕ → List ℕ
params_text m t p = b'm' ∷ b'=' ∷ (m ++ (b',' ∷ b't' ∷ b'=' ∷ (t ++ (b',' ∷ b'p' ∷ b'=' ∷ p))))

split-params :
    (m t p : List ℕ)
    → Apart b',' m
    → Apart b',' t
    → Apart b',' p
    → split b',' (params_text m t p)
      ≡ (b'm' ∷ b'=' ∷ m) ∷ (b't' ∷ b'=' ∷ t) ∷ (b'p' ∷ b'=' ∷ p) ∷ []
unfolding split
split-params m t p hm ht hp =
    rw (split_before b',' m _ hm, split_before b',' t _ ht, split_last b',' p hp) refl

-- The six fields of a record.
split-phc_text :
    (salt hash m t p : List ℕ)
    → Apart b'$' m
    → Apart b'$' t
    → Apart b'$' p
    → split b'$' (phc_text salt hash m t p)
      ≡ []
        ∷ (b'a' ∷ b'r' ∷ b'g' ∷ b'o' ∷ b'n' ∷ b'2' ∷ b'i' ∷ b'd' ∷ [])
        ∷ (b'v' ∷ b'=' ∷ b'1' ∷ b'9' ∷ [])
        ∷ params_text m t p
        ∷ base64_encode salt
        ∷ base64_encode hash
        ∷ []
unfolding split
split-phc_text salt hash m t p hm ht hp =
    rw
      (
        split-append b'$' m _ hm,
        split-append b'$' t _ ht,
        split_before b'$' p _ hp,
        split_before b'$' (base64_encode salt) _ (encode-Apart salt),
        split_last b'$' (base64_encode hash) (encode-Apart hash),
      )
      refl

decode_phc-phc_text :
    (record_ : Phc) (m t p : List ℕ)
    → All (λ b. b < 256) record_.salt
    → All (λ b. b < 256) record_.hash
    → (m' : IsDecimal 10 record_.m_cost m) → record_.m_cost < 2 ^ 32
    → (t' : IsDecimal 10 record_.t_cost t) → record_.t_cost < 2 ^ 32
    → (p' : IsDecimal 10 record_.p_cost p) → record_.p_cost < 2 ^ 32
    → decode_phc (phc_text record_.salt record_.hash m t p) ≡ ok record_
decode_phc-phc_text r m t p hs hh m' hm t' ht p' hp =
    let fields =
      split-phc_text r.salt r.hash m t p (digits-Apart b'$' m (omega arith) m'.digits)
        (digits-Apart b'$' t (omega arith) t'.digits)
        (digits-Apart b'$' p (omega arith) p'.digits) in
    let params =
      split-params m t p (digits-Apart b',' m (omega arith) m'.digits)
        (digits-Apart b',' t (omega arith) t'.digits)
        (digits-Apart b',' p (omega arith) p'.digits) in
    unfold decode_phc in
    ap decode_parts fields
    ∙ (unfold decode_parts decode_fields parse_param in
        rw
          (
            params,
            parse_u32-IsDecimal 10 r.m_cost m hm m',
            parse_u32-IsDecimal 10 r.t_cost t ht t',
            parse_u32-IsDecimal 10 r.p_cost p hp p',
            decode-encode r.salt hs,
            decode-encode r.hash hh,
          )
          refl)

pub decode-encode_phc :
    (salt hash : List ℕ) (m_cost t_cost p_cost : ℕ)
    → All (λ b. b < 256) salt
    → All (λ b. b < 256) hash
    → m_cost < 2 ^ 32
    → t_cost < 2 ^ 32
    → p_cost < 2 ^ 32
    → Ends
        (λ text.
          decode_phc text
          ≡ ok (record {
            salt = salt;
            hash = hash;
            m_cost = m_cost;
            t_cost = t_cost;
            p_cost = p_cost;
          }))
        (encode_phc salt hash m_cost t_cost p_cost)
unfolding encode_phc
decode-encode_phc salt hash m_cost t_cost p_cost hs hh hm ht hp =
    let (m, em, m') = u32_to_alloc_string-IsDecimal m_cost hm in
    let (t, et, t') = u32_to_alloc_string-IsDecimal t_cost ht in
    let (p, ep, p') = u32_to_alloc_string-IsDecimal p_cost hp in
    (
      phc_text salt hash m t p,
      rw (em, et, ep) refl,
      decode_phc-phc_text
          (record { salt = salt; hash = hash; m_cost = m_cost; t_cost = t_cost; p_cost = p_cost }) m
          t p hs hh m' hm t' ht p' hp,
    )
