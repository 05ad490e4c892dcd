-- ===== src/Strings.antt =====
-- The functions of Go's package strings that the relay calls.
use Prim.Native.Char.{Char, code}
use Prim.Native.String.{len, slice}
use text.Mathlib.Text.{starts_with}
use cloistr_relay.Prelude.{
  ◌≡◌, refl, String, Bool, ◌&&◌, ◌||◌, ◌==◌, nat_eq, string_eq, leb, if◌then◌else◌,
}

unfoldable pub has_prefix : String → String → Bool
has_prefix s p = starts_with s p

unfoldable pub trim_prefix : String → String → String
unfolding has_prefix
trim_prefix s p = if has_prefix s p then slice s (len p) (len s) else s

-- unicode.IsSpace
unfoldable pub is_space : Char → Bool
is_space c =
    let n = code c in
    leb 9 n && leb n 13
    || n == 32
    || n == 0x85
    || n == 0xa0
    || n == 0x1680
    || leb 0x2000 n && leb n 0x200a
    || n == 0x2028
    || n == 0x2029
    || n == 0x202f
    || n == 0x205f
    || n == 0x3000

trim_left : String → String
unfolding is_space
trim_left String.[] = ""
trim_left (String.◌∷◌ c s) = let rest = trim_left s in if is_space c then rest else String.◌∷◌ c s

trim_right : String → String
unfolding is_space
trim_right String.[] = ""
trim_right (String.◌∷◌ c s) =
    let rest = trim_right s in if is_space c && rest == "" then "" else String.◌∷◌ c rest

unfoldable pub trim_space : String → String
unfolding trim_left trim_right
trim_space s = trim_right (trim_left s)

trim_space_example : trim_space (trim_prefix "arbiter:claim: t 1 " "arbiter:claim:") ≡ "t 1"
unfolding trim_space trim_prefix
trim_space_example = refl
