-- ===== src/Std/Tests.antt =====
-- Runs of the path and text operations on the inputs of the standard library's documentation.
use config_guard.Base.{◌≡◌, refl, true, false, none, some, list_beq}
use config_guard.Std.Bytes.{bytes}
use config_guard.Std.FilePath.{path, components, starts_with, file_name, join, component_beq}

starts_with_component : starts_with (path "/etc/passwd/x") (path "/etc//passwd/.") ≡ true
unfolding starts_with components component_beq list_beq
starts_with_component = refl

starts_with_whole : starts_with (path "/etc/foo.rs") (path "/etc/foo") ≡ false
unfolding starts_with components component_beq list_beq
starts_with_whole = refl

file_name_trailing : file_name (path "tmp/foo.txt/.//") ≡ some (bytes "foo.txt")
unfolding file_name components list_beq
file_name_trailing = refl

file_name_parent : file_name (path "foo.txt/..") ≡ none
unfolding file_name components list_beq
file_name_parent = refl

join_relative : join (path "/etc") (path "passwd") ≡ path "/etc/passwd"
unfolding join
join_relative = refl

join_absolute : join (path "/etc") (path "/bin/sh") ≡ path "/bin/sh"
unfolding join
join_absolute = refl
