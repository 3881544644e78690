-- ===== src/Session/Trim.antt =====
-- `str::trim`, which apps/tailkvm-ui/src-tauri/src/session/mod.rs applies to names, hosts and tokens.
use Prim.Native.Char.{Char, code}
use Prim.Native.String.{String, [], ◌∷◌}
use text.Mathlib.Text.{◌==◌ as str_eq}
use tail_kvm.Base.{Bool, ◌&&◌, ◌||◌, leb, ◌==◌, if◌then◌else◌}

-- `char::is_whitespace`, Unicode's White_Space
unfoldable pub is_whitespace : Char → Bool
is_whitespace c =
    let n = code c in
    (leb 9 n && leb n 13)
    || (n == 32
        || (n == 0x85
            || (n == 0xA0
                || (n == 0x1680
                    || ((leb 0x2000 n && leb n 0x200A)
                        || (n == 0x2028
                            || (n == 0x2029 || (n == 0x202F || (n == 0x205F || n == 0x3000)))))))))

unfoldable pub trim_start : String → String
unfolding is_whitespace
trim_start [] = []
trim_start (c ∷ text) = let rest = trim_start text in if is_whitespace c then rest else c ∷ text

unfoldable pub trim_end : String → String
unfolding is_whitespace
trim_end [] = []
trim_end (c ∷ text) =
    let rest = trim_end text in if is_whitespace c && str_eq rest "" then [] else c ∷ rest

-- `str::trim`
unfoldable pub trim : String → String
unfolding trim_start trim_end
trim text = trim_end (trim_start text)
