-- ===== src/Ipc/Name/Tests.antt =====
-- Tests of channel names, and the theorem's witness.
use puc.Base.{◌≡◌, refl, ◌↔◌, true, false, some}
use puc.Base.Bytes.{bytes_eq, bytes}
use puc.Ipc.Name.{
  valid_channel_name, valid_segments, split, valid_segment_byte, parse_path, resolve,
}
use puc.Ipc.Name.Segments.{IsName, valid_channel_name-IsName}

accepts_name : valid_channel_name (bytes "//screen/mouse-events.v2") ≡ true
unfolding valid_channel_name valid_segments split valid_segment_byte bytes_eq
accepts_name = refl

rejects_dots : valid_channel_name (bytes "//a/../b") ≡ false
unfolding valid_channel_name valid_segments split valid_segment_byte bytes_eq
rejects_dots = refl

parses_path : parse_path (bytes "a/b") ≡ some (bytes "a/b")
unfolding parse_path valid_channel_name valid_segments split valid_segment_byte bytes_eq
parses_path = refl

resolves_path : resolve (bytes "//x") (bytes "a/b") ≡ some (bytes "//x/a/b")
unfolding resolve valid_channel_name valid_segments split valid_segment_byte bytes_eq
resolves_path = refl

valid_channel_name-IsName_example : (valid_channel_name (bytes "//a") ≡ true) ↔ IsName (bytes "//a")
valid_channel_name-IsName_example = valid_channel_name-IsName (bytes "//a")
