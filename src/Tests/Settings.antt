-- ===== src/Tests/Settings.antt =====
-- lib/ConfigParser.cpp on small inputs.
use usbproxy.Base.{[], ◌∷◌, Bytes}
use usbproxy.ConfigParser
use usbproxy.ConfigParser.{ConfigParser, str_strip, set_string, add_to_vector, get_vector, find}

-- "on".
abbrev on : Bytes
on = 111 ∷ 110 ∷ []

-- "Cache".
abbrev cache : Bytes
cache = 67 ∷ 97 ∷ 99 ∷ 104 ∷ 101 ∷ []
