-- ===== src/Address.antt =====
-- Text helpers of src/lib/email-address.ts: `trim` with JavaScript's white space, and the
-- normalisation of an address. The table of lower-case letters is the runtime's: it comes as the
-- argument `lower`.
pub mod Valid
use ai_email_broadcast_hw.Base.{ℕ, ◌+◌, Bool, ◌&&◌, ◌||◌, [], ◌∷◌, Text, ◌==◌, leb, if◌then◌else◌}
use mathlib.Core.List.{reverse}

unfoldable pub is_space : ℕ → Bool
is_space c =
    (leb 9 c && leb c 13)
    || (c == 32
        || (c == 0xa0
            || (c == 0x1680
                || ((leb 0x2000 c && leb c 0x200a)
                    || (c == 0x2028
                        || (c == 0x2029
                            || (c == 0x202f || (c == 0x205f || (c == 0x3000 || c == 0xfeff)))))))))

unfoldable pub trim_start : Text → Text
unfolding is_space
trim_start [] = []
trim_start (c ∷ cs) = if is_space c then trim_start cs else c ∷ cs

unfoldable pub trim : Text → Text
unfolding trim_start
trim t = reverse (trim_start (reverse (trim_start t)))

unfoldable pub normalize_email : (Text → Text) → Text → Text
unfolding trim
normalize_email lower t = lower (trim t)

-- The letters A to Z, which are all that an address has; an instance of `lower`.
unfoldable pub lower_ascii : Text → Text
lower_ascii [] = []
lower_ascii (c ∷ cs) = (if leb 65 c && leb c 90 then c + 32 else c) ∷ lower_ascii cs
