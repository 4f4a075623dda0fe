-- ===== src/ConfigParser/Lines.antt =====
-- The lines of a configuration file.
use usbproxy.Base.{◌≤◌, ◌≡◌, false, none, ◌==◌, length, get_or, Bytes}
use usbproxy.ConfigParser.{ConfigParser, find_equals}
use usbproxy.ConfigParser.Strip.{IsCore}

-- A name: a core of at least two characters with no '=' in it and no '#' in front.
pub record IsName (name : Bytes) : Type 0 where
  pub core : IsCore name
  pub long : 2 ≤ length name
  pub no_equals : find_equals name ≡ none
  pub no_comment : (get_or name 0 0 == 35) ≡ false
