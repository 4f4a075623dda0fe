-- ===== src/Tests/Texts.antt =====
-- lib/HexString.cpp on a small input.
use usbproxy.Base.{◌≡◌, some, [], ◌∷◌, arith}
use usbproxy.Result.{ok}
use usbproxy.HexString.{hex_string}
use usbproxy.HexString.Text.{hex_string-text}

-- "ff 0a"
hex_string-text_example :
    hex_string (255 ∷ 10 ∷ [])
    ≡ ok (some 102 ∷ some 102 ∷ some 32 ∷ some 48 ∷ some 97 ∷ some 0 ∷ [])
hex_string-text_example =
    hex_string-text (255 ∷ 10 ∷ []) (omega arith) (omega arith, (omega arith, tt))
