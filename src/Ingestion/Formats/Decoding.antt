-- ===== src/Ingestion/Formats/Decoding.antt =====
-- The decoding of HTML finds whatever plain text could be decoded by, unless the codec of the charset
-- that the file declares raises an exception of its own (`_decode_html_contents`).
use chatvector_ai.Text.{codes, lower, strip, same_text, is_one_of}
use chatvector_ai.Ingestion.Formats.{
  Option, Codecs, Decoded, decoded, undecodable, codec_error, decode, strictly, decode_text,
  try_encodings, declared_encodings, decode_html_contents,
}
use chatvector_ai.Prelude.{
  ℕ, true, false, ◌≡◌, ◌≢◌, refl, ◌⊎◌, inl, inr, Bool-cases, Option-cases, Option, none, some, List,
  [], ◌∷◌, ◌++◌, map, is_empty, is_some, ◌||◌, All, arith,
}

pub same_text-eq : (s t : List ℕ) → same_text s t ≡ true → s ≡ t
same_text-eq [] [] h = refl
same_text-eq [] (d ∷ t) h = ground arith
same_text-eq (c ∷ s) [] h = ground arith
same_text-eq (c ∷ s) (d ∷ t) h =
    let e : c ≡ d = ground arith in let k : s ≡ t = same_text-eq s t (ground arith) in cc

module _ (c : Codecs) (contents : List ℕ) where
  abbrev Fails : List ℕ → Type 0
  Fails encoding = decode c encoding contents ≡ undecodable

  abbrev normal : List ℕ → List ℕ
  normal encoding = map lower (strip encoding)

  -- A text, or the exception of a codec other than utf-8 and cp1254.
  pub data IsRead : Decoded → Type 0 where
    read : (text : List ℕ) → IsRead (decoded text)
    raised :
        (encoding : List ℕ)
        → same_text encoding (codes "utf-8") ≡ false
        → same_text encoding (codes "cp1254") ≡ false
        → c.named encoding contents ≡ codec_error
        → IsRead codec_error

  -- Some encoding of the list decodes the contents.
  abbrev SomeDecodes : List (List ℕ) → Type 0
  SomeDecodes [] = ⊥
  SomeDecodes (encoding ∷ encodings) =
      ((is_empty (normal encoding) ≡ false) × (decode c (normal encoding) contents ≢ undecodable))
      ⊎ SomeDecodes encodings

  failed_if_seen :
      (seen : List (List ℕ)) (encoding : List ℕ)
      → All Fails seen
      → is_one_of seen encoding ≡ true
      → Fails encoding
  unfolding is_one_of
  failed_if_seen [] encoding h found = ground arith
  failed_if_seen (s ∷ seen) encoding (h, hs) found = elim (Bool-cases (same_text s encoding)) [
    | inl same ↦ let e : s ≡ encoding = same_text-eq s encoding same in cc
    | inr other ↦ failed_if_seen seen encoding hs (ground (arith, other, found))
  ]

  SomeDecodes-later :
      (encoding : List ℕ) (encodings : List (List ℕ))
      → (is_empty (normal encoding) ≡ true) ⊎ Fails (normal encoding)
      → SomeDecodes (encoding ∷ encodings)
      → SomeDecodes encodings
  SomeDecodes-later encoding encodings useless (inr later) = later
  SomeDecodes-later encoding encodings (inl empty) (inl (filled, found)) = absurd (ground arith)
  SomeDecodes-later encoding encodings (inr failed) (inl (filled, found)) = absurd (found failed)

  useless_if_skipped :
      (seen : List (List ℕ)) (encoding : List ℕ)
      → All Fails seen
      → is_empty encoding || is_one_of seen encoding ≡ true
      → (is_empty encoding ≡ true) ⊎ Fails encoding
  useless_if_skipped seen encoding h skipped = elim (Bool-cases (is_empty encoding)) [
    | inl empty ↦ inl empty
    | inr filled ↦ inr (failed_if_seen seen encoding h (ground (arith, filled, skipped)))
  ]

  Decoded-cases :
      (d : Decoded) → ((text : List ℕ) × (d ≡ decoded text)) ⊎ (d ≡ undecodable) ⊎ (d ≡ codec_error)
  Decoded-cases (decoded text) = inl (text, refl)
  Decoded-cases undecodable = inr (inl refl)
  Decoded-cases codec_error = inr (inr refl)

  -- Neither utf-8 nor cp1254 raises anything that the loop does not catch.
  decode-raised :
      (encoding : List ℕ) → decode c encoding contents ≡ codec_error → IsRead codec_error
  unfolding decode strictly
  decode-raised encoding h = elim (Bool-cases (same_text encoding (codes "utf-8"))) [
    | inl is_utf_8 ↦ absurd (ground (arith, h))
    | inr not_utf_8 ↦ elim (Bool-cases (same_text encoding (codes "cp1254"))) [
      | inl is_cp1254 ↦ absurd (ground (arith, h))
      | inr not_cp1254 ↦ raised encoding not_utf_8 not_cp1254 (ground (arith, h))
    ]
  ]

  try_encodings-IsRead :
      (seen encodings : List (List ℕ))
      → All Fails seen
      → SomeDecodes encodings
      → IsRead (try_encodings c seen encodings contents)
  unfolding try_encodings
  try_encodings-IsRead seen [] h decodes = absurd decodes
  try_encodings-IsRead seen (encoding ∷ encodings) h decodes =
      elim (Bool-cases (is_empty (normal encoding) || is_one_of seen (normal encoding))) [
        | inl skipped ↦
            rw (skipped, try_encodings)
              (try_encodings-IsRead seen encodings h (
                SomeDecodes-later encoding encodings
                  (useless_if_skipped seen (normal encoding) h skipped) decodes))
        | inr tried ↦ elim (Decoded-cases (decode c (normal encoding) contents)) [
          | inl (text, found) ↦ rw (tried, found, try_encodings) (read text)
          | inr (inl failed) ↦
              rw (tried, failed, try_encodings)
                (try_encodings-IsRead (normal encoding ∷ seen) encodings (failed, h)
                  (SomeDecodes-later encoding encodings (inr failed) decodes))
          | inr (inr error) ↦
              rw (tried, error, try_encodings) (decode-raised (normal encoding) error)
        ]
      ]

  SomeDecodes-append :
      (first later : List (List ℕ)) → SomeDecodes later → SomeDecodes (first ++ later)
  SomeDecodes-append [] later h = h
  SomeDecodes-append (encoding ∷ first) later h = inr (SomeDecodes-append first later h)

  utf_8-decode : decode c (normal (codes "utf-8")) contents ≡ strictly c (c.utf_8 contents)
  unfolding decode strip lower
  utf_8-decode = refl

  cp1254-decode : decode c (normal (codes "cp1254")) contents ≡ strictly c (c.cp1254 contents)
  unfolding decode strip lower
  cp1254-decode = refl

  strictly-found : (found : Option (List ℕ)) → is_some found ≡ true → strictly c found ≢ undecodable
  unfolding strictly
  strictly-found none h e = ground arith
  strictly-found (some text) h e = ground arith

  text-SomeDecodes :
      is_some (decode_text c contents) ≡ true → SomeDecodes (codes "utf-8" ∷ codes "cp1254" ∷ [])
  unfolding decode_text strip lower
  text-SomeDecodes h = elim (Option-cases (c.utf_8 contents)) [
    | inl failed ↦ inr (
        inl
          (refl, rw cp1254-decode (strictly-found (c.cp1254 contents) (ground (arith, failed, h)))))
    | inr (text, found) ↦
        inl (refl, rw utf_8-decode (strictly-found (c.utf_8 contents) (rw found refl)))
  ]

  -- Whatever charset an HTML file declares, its bytes are decoded where utf-8 or cp1254 decodes them,
  -- unless the codec of that charset raises an exception that is not caught.
  pub decode_html-decode_text :
      is_some (decode_text c contents) ≡ true → IsRead (decode_html_contents c contents)
  unfolding decode_html_contents
  decode_html-decode_text h =
      try_encodings-IsRead []
        (declared_encodings c (c.html_declared_charset contents)
          ++ codes "utf-8" ∷ codes "cp1254" ∷ [])
        tt
        (SomeDecodes-append (declared_encodings c (c.html_declared_charset contents)) _
          (text-SomeDecodes h))
