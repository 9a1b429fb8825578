-- ===== src/Codec/Sound/Payload.antt =====
-- What `decode_payload` accepts.
use mathlib.Core.List.{append_assoc, append-nil}
use mathlib.Core.Path.{subst}
use mathlib.Core.Option.{some-injective}
use trtp_network.Prelude.{
  ℕ, ◌+◌, ◌^◌, ◌≤◌, ◌<◌, ◌≡◌, ◌⊎◌, inl, inr, refl, sym, ap, ◌∙◌, List, [], ◌∷◌, ◌++◌, true, Option,
  none, some, arith, length, load, load-prefix, load-append-add, load-within, length-append,
}
use trtp_network.Packet.{Pkt, block, Status, pkt_ok, e_crc}
use trtp_network.Codec.{
  Zlib, calculate_crc32, Endian, little, big, from_net, from_host, net32, host32, decode_payload,
}
use trtp_network.Codec.Encode.{HasPayload, sealed_header, wire}
use trtp_network.Codec.Decode.{decode_payload-empty, decode_payload-match, decode_payload-corrupt}
use trtp_network.Codec.Limits.{IsBytes, decode_payload_past, Nat-cases}

pub IsBytes-append : (xs ys : List ℕ) → IsBytes (xs ++ ys) → IsBytes xs × IsBytes ys
IsBytes-append [] ys h = (tt, h)
IsBytes-append (x ∷ xs) ys h = let (l, r) = IsBytes-append xs ys h.1 in ((h.0, l), r)

pub net32-from_net : (bs : List ℕ) → length bs ≡ 4 → IsBytes bs → net32 (from_net bs) ≡ bs
net32-from_net (a ∷ b ∷ c ∷ d ∷ []) l h = ground arith
net32-from_net _ l h = absurd (omega arith)

pub host32-from_host :
    (e : Endian) (a b c d : ℕ)
    → IsBytes (a ∷ b ∷ c ∷ d ∷ [])
    → host32 e (from_host e (a ∷ b ∷ c ∷ d ∷ [])) ≡ a ∷ b ∷ c ∷ d ∷ []
host32-from_host little a b c d h = ground arith
host32-from_host big a b c d h = ground arith

pub from_host-lt :
    (e : Endian) (a b c d : ℕ)
    → IsBytes (a ∷ b ∷ c ∷ d ∷ [])
    → from_host e (a ∷ b ∷ c ∷ d ∷ []) < 2 ^ 32
from_host-lt little a b c d h = omega arith
from_host-lt big a b c d h = omega arith

pub le_cases : (a b : ℕ) → (a ≤ b) ⊎ (b < a)
le_cases a b = omega arith

-- What follows the header in the datagram of a payload.
abbrev pub trailer : Zlib → List ℕ → List ℕ
trailer z [] = []
trailer z (b ∷ bs) = (b ∷ bs) ++ net32 (calculate_crc32 z (b ∷ bs))

pub wire-trailer :
    (z : Zlib) (e : Endian) (p : Pkt) (body : List ℕ)
    → wire z e p body ≡ sealed_header z e p ++ trailer z body
wire-trailer z e p [] = sym (append-nil (sealed_header z e p))
wire-trailer z e p (b ∷ bs) =
    append_assoc (sealed_header z e p) (b ∷ bs) (net32 (calculate_crc32 z (b ∷ bs)))

trailer_full :
    (z : Zlib) (body : List ℕ)
    → 0 < length body
    → trailer z body ≡ body ++ net32 (calculate_crc32 z body)
trailer_full z [] h = absurd (omega arith)
trailer_full z (b ∷ bs) h = refl

pub result-injective :
    {s t : Status} {p q : Pkt}
    → ◌≡◌ {A = Option (Status × Pkt)} (some (s, p)) (some (t, q))
    → (s ≡ t) × (p ≡ q)
result-injective {s} {t} {p} {q} h =
    (ap (λ r. r.0) (some-injective _ _ h), ap (λ r. r.1) (some-injective _ _ h))

-- What an accepted payload looks like in memory.
pub record Accepted (z : Zlib) (rest : List ℕ) (p p' : Pkt) : Type 0 where
  pub body : List ℕ
  pub tail : List ℕ
  pub rest_is : rest ≡ trailer z body ++ tail
  pub has : HasPayload p' body
  pub same : p' ≡ record p { payload = p'.payload; crc2 = p'.crc2 }

no_result : {r : Status × Pkt} → none ≡ some r → ⊥
no_result h = cc

module _ (z : Zlib) (e : Endian) (cells rest : List ℕ) (p p' : Pkt) (twelve : length cells ≡ 12)
    (ok : IsBytes rest) (short : p.length_field ≤ 512)
    (h : decode_payload z e true (cells ++ rest) p ≡ some (pkt_ok, p')) where
  full-Accepted :
      (body crc : List ℕ)
      → 0 < p.length_field
      → load rest 0 p.length_field ≡ some body
      → length body ≡ p.length_field
      → load rest p.length_field 4 ≡ some crc
      → length crc ≡ 4
      → Accepted z rest p p'
  full-Accepted body crc full at12 counted behind four =
      elim (Nat-cases (calculate_crc32 z body) (from_net crc)) [
        | inl same ↦ accept same
        | inr differ ↦ absurd (
            clash (
              sym (
                decode_payload-corrupt z e true (cells ++ rest) body crc p full (omega arith) there
                  beyond differ)
              ∙ h))
      ]
    where
      clash : {q : Pkt} → ◌≡◌ {A = Option (Status × Pkt)} (some (e_crc, q)) (some (pkt_ok, p')) → ⊥
      clash bad = cc

      there : load (cells ++ rest) 12 p.length_field ≡ some body
      there = load-append-add cells rest 0 p.length_field (omega arith) ∙ at12

      beyond : load (cells ++ rest) (12 + p.length_field) 4 ≡ some crc
      beyond = load-append-add cells rest p.length_field 4 (omega arith) ∙ behind

      first : (r : List ℕ) × (rest ≡ body ++ r) × (length body ≡ p.length_field)
      first = load-prefix rest p.length_field at12

      second : (r : List ℕ) × (first.0 ≡ crc ++ r) × (length crc ≡ 4)
      second = load-prefix first.0 4 (
          sym (load-append-add body first.0 0 4 {off = p.length_field} (omega arith))
          ∙ subst (λ m. load m p.length_field 4 ≡ some crc) first.1 behind)

      whole : rest ≡ body ++ (crc ++ second.0)
      whole = first.1 ∙ ap (λ r. body ++ r) second.1

      crc_bytes : IsBytes crc
      crc_bytes =
          (IsBytes-append crc second.0
            ((IsBytes-append body (crc ++ second.0) (subst IsBytes whole ok)).1)).0

      accept : calculate_crc32 z body ≡ from_net crc → Accepted z rest p p'
      accept same =
          let stored : record p { payload = block body; crc2 = from_net crc } ≡ p' =
            (result-injective (
              sym (
                decode_payload-match z e true (cells ++ rest) body crc p full (omega arith) there
                  beyond same)
              ∙ h)).1 in
          record {
            body = body;
            tail = second.0;
            rest_is =
                whole
                ∙ sym (append_assoc body crc second.0)
                ∙ ap (λ c. (body ++ c) ++ second.0)
                    (sym (ap net32 same ∙ net32-from_net crc four crc_bytes))
                ∙ ap (λ t. t ++ second.0) (sym (trailer_full z body (omega arith)));
            has = rw (← stored) (sym counted, λ (k : 0 < length body). refl);
            same = rw (← stored);
          }

  pub decode_payload-Accepted : Accepted z rest p p'
  decode_payload-Accepted = elim (Nat-cases p.length_field 0) [
    | inl empty ↦
        let same : p ≡ p' =
          (result-injective (sym (decode_payload-empty z e true (cells ++ rest) p empty) ∙ h)).1 in
        record {
          body = [];
          tail = rest;
          rest_is = refl;
          has = (rw (← same) empty, λ (k : 0 < 0). absurd (omega arith));
          same = rw (← same);
        }
    | inr full ↦ elim (le_cases (16 + p.length_field) (length (cells ++ rest))) [
      | inr past ↦
          absurd (
            no_result (sym (decode_payload_past z e true (cells ++ rest) p (omega arith) past) ∙ h))
      | inl fits ↦
          let (body, at12, counted) =
            load-within rest 0 p.length_field (omega (arith, length-append cells rest)) in
          let (crc, behind, four) =
            load-within rest p.length_field 4 (omega (arith, length-append cells rest)) in
          full-Accepted body crc (omega arith) at12 counted behind four
    ]
  ]
