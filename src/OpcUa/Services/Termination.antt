-- ===== src/OpcUa/Services/Termination.antt =====
-- The recursion over nested DiagnosticInfo ends, and is the recursion of the source.
use marlinspike_dpi.Prelude.{
  ℕ, zero, suc, ◌+◌, ◌≤◌, ◌<◌, ◌≡◌, refl, ap, Bool, true, false, if◌then◌else◌, arith, length,
}
use marlinspike_dpi.OpcUa.Reader.{
  Reader, Result, ok, err, Read, pure, continue, ◌>>=◌, remaining, read_u8, read_i32, read_u32,
  read_byte_string, flag,
}
use marlinspike_dpi.OpcUa.Reader.Follows.{
  Follows, Follows-trans, IsSafe, stays, part-IsSafe, read_u8-IsSafe, read_i32-IsSafe,
  read_u32-IsSafe, read_byte_string-IsSafe,
}
use marlinspike_dpi.OpcUa.Reader.Counts.{read_u8-Counts}
use marlinspike_dpi.OpcUa.Services.{
  skip_diagnostic_fields, skip_diagnostic_within, skip_diagnostic_info,
}

pub skip_diagnostic_fields-IsSafe : (mask : ℕ) → IsSafe (skip_diagnostic_fields mask)
unfolding skip_diagnostic_fields
skip_diagnostic_fields-IsSafe mask =
    part-IsSafe (flag mask 0x01) read_i32 _ read_i32-IsSafe (λ symbolic_id.
      part-IsSafe (flag mask 0x02) read_i32 _ read_i32-IsSafe (λ namespace.
        part-IsSafe (flag mask 0x04) read_i32 _ read_i32-IsSafe (λ locale.
          part-IsSafe (flag mask 0x08) read_i32 _ read_i32-IsSafe (λ localized_text.
            part-IsSafe (flag mask 0x10) read_byte_string _ read_byte_string-IsSafe
              (λ additional_info.
                part-IsSafe (flag mask 0x20) read_u32 _ read_u32-IsSafe (λ inner_status. stays))))))

-- Two continuations that agree where the first step succeeds.
continue_agree :
    {A B : Type 0} (o : Result A) (r : Reader) (f g : A → Read B)
    → ((a : A) → o ≡ ok a → f a r ≡ g a r)
    → continue o r f ≡ continue o r g
continue_agree (ok a) r f g h = h a refl
continue_agree (err e) r f g h = refl

if_agree :
    {A : Type 0} (b : Bool) (m n k : Read A) (r : Reader)
    → m r ≡ n r
    → (if b then m else k) r ≡ (if b then n else k) r
if_agree true m n k r h = h
if_agree false m n k r h = refl

-- A read that took a byte left less.
remaining-lt :
    (a b : Reader) (m : ℕ)
    → Follows a b
    → a.position + 1 ≤ b.position
    → remaining a < suc m
    → remaining b < m
remaining-lt a b m f moved h = omega (arith, ap length f.same, f.inside, moved, h)

-- Where the reading of the inner one starts.
abbrev inner : ℕ → Reader → Reader
inner mask r = (skip_diagnostic_fields mask (read_u8 r).1).1

inner-Follows : (mask : ℕ) (r : Reader) → r.position ≤ length r.bytes → Follows r (inner mask r)
inner-Follows mask r h =
    let first = read_u8-IsSafe r h in
    Follows-trans r (read_u8 r).1 (inner mask r) first
      (skip_diagnostic_fields-IsSafe mask (read_u8 r).1 first.inside)

inner-remaining :
    (mask : ℕ) (r : Reader) (m : ℕ)
    → r.position ≤ length r.bytes
    → (read_u8 r).0 ≡ ok mask
    → remaining r < suc m
    → remaining (inner mask r) < m
inner-remaining mask r m h read p =
    let first = read_u8-IsSafe r h in
    let fields = skip_diagnostic_fields-IsSafe mask (read_u8 r).1 first.inside in
    remaining-lt r (inner mask r) m (inner-Follows mask r h)
      (omega (arith, read_u8-Counts r mask h read, fields.forward)) p

-- One level, before the inner one.
level_agree :
    (m n : Read (Unit {0})) (r : Reader)
    → r.position ≤ length r.bytes
    → ((mask : ℕ) → (read_u8 r).0 ≡ ok mask → m (inner mask r) ≡ n (inner mask r))
    → (read_u8 >>= (λ mask.
          skip_diagnostic_fields mask >>= (λ skipped. if flag mask 0x40 then m else pure tt)))
        r
      ≡ (read_u8 >>= (λ mask.
            skip_diagnostic_fields mask >>= (λ skipped. if flag mask 0x40 then n else pure tt)))
          r
level_agree m n r h agree = continue_agree (read_u8 r).0 (read_u8 r).1 _ _ (λ mask read.
    continue_agree (skip_diagnostic_fields mask (read_u8 r).1).0 (inner mask r) _ _
      (λ skipped here. if_agree (flag mask 0x40) m n (pure tt) (inner mask r) (agree mask read)))

-- Any two amounts of fuel above the bytes that are left give the same result and cursor.
skip_diagnostic_within_agree :
    (m n : ℕ) (r : Reader)
    → r.position ≤ length r.bytes
    → remaining r < m
    → remaining r < n
    → skip_diagnostic_within m r ≡ skip_diagnostic_within n r
unfolding skip_diagnostic_within
skip_diagnostic_within_agree zero n r h p q = absurd (omega (arith, p))
skip_diagnostic_within_agree (suc m) zero r h p q = absurd (omega (arith, q))
skip_diagnostic_within_agree (suc m) (suc n) r h p q =
    level_agree (skip_diagnostic_within m) (skip_diagnostic_within n) r h (λ mask read.
      skip_diagnostic_within_agree m n (inner mask r) (inner-Follows mask r h).inside
        (inner-remaining mask r m h read p) (inner-remaining mask r n h read q))

-- From every cursor inside the message, as much fuel as there are bytes left and one more is
-- enough: every larger amount gives the same result and the same cursor. What it computes satisfies
-- the equation that is the body of the function in the source: a mask, the parts it announces, and
-- the function itself again where it announces an inner DiagnosticInfo.
pub skip_diagnostic_info_lem :
    (r : Reader) (fuel : ℕ)
    → r.position ≤ length r.bytes
    → remaining r < fuel
    → (skip_diagnostic_within fuel r ≡ skip_diagnostic_info r)
      × (skip_diagnostic_info r
          ≡ (read_u8 >>= (λ mask.
                skip_diagnostic_fields mask
                >>= (λ skipped. if flag mask 0x40 then skip_diagnostic_info else pure tt)))
              r)
unfolding skip_diagnostic_within skip_diagnostic_info
skip_diagnostic_info_lem r fuel h enough = (
  skip_diagnostic_within_agree fuel (suc (remaining r)) r h enough (omega arith),
  level_agree (skip_diagnostic_within (remaining r)) skip_diagnostic_info r h (λ mask read.
      let below = inner-remaining mask r (remaining r) h read (omega arith) in
      skip_diagnostic_within_agree (remaining r) (suc (remaining (inner mask r))) (inner mask r)
        (inner-Follows mask r h).inside below (omega arith)),
)
