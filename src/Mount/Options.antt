-- ===== src/Mount/Options.antt =====
-- Mount options (src/mount.rs): the table `FLAGS`, `parse_mount_flags_and_options` and
-- `parse_options`.
pub mod Laws
use Prim.Native.String.{◌++◌}
use kata_rust_agent.Base.{
  String, Bool, true, false, Option, none, some, List, [], ◌∷◌, str_eq, if◌then◌else◌,
}
use kata_rust_agent.Base.Dict.{Dict, get, put}
use kata_rust_agent.Base.Text.{split}
use kata_rust_agent.Os.Flags.{
  MsFlags, no_flags, single, union, rdonly, nosuid, nodev, noexec, synchronous, dirsync, remount,
  mandlock, noatime, nodiratime, bind, rec, unbindable, private, shared, slave, relatime,
  strictatime,
}

-- `FLAGS`: for each known option whether it clears its flags, and the flags.
abbrev pub flag_table : Dict (Bool × MsFlags)
flag_table =
    ("defaults", (false, no_flags))
    ∷ ("ro", (false, single rdonly))
    ∷ ("rw", (true, single rdonly))
    ∷ ("suid", (true, single nosuid))
    ∷ ("nosuid", (false, single nosuid))
    ∷ ("dev", (true, single nodev))
    ∷ ("nodev", (false, single nodev))
    ∷ ("exec", (true, single noexec))
    ∷ ("noexec", (false, single noexec))
    ∷ ("sync", (false, single synchronous))
    ∷ ("async", (true, single synchronous))
    ∷ ("dirsync", (false, single dirsync))
    ∷ ("remount", (false, single remount))
    ∷ ("mand", (false, single mandlock))
    ∷ ("nomand", (true, single mandlock))
    ∷ ("atime", (true, single noatime))
    ∷ ("noatime", (false, single noatime))
    ∷ ("diratime", (true, single nodiratime))
    ∷ ("nodiratime", (false, single nodiratime))
    ∷ ("bind", (false, single bind))
    ∷ ("rbind", (false, union (single bind) (single rec)))
    ∷ ("unbindable", (false, single unbindable))
    ∷ ("runbindable", (false, union (single unbindable) (single rec)))
    ∷ ("private", (false, single private))
    ∷ ("rprivate", (false, union (single private) (single rec)))
    ∷ ("shared", (false, single shared))
    ∷ ("rshared", (false, union (single shared) (single rec)))
    ∷ ("slave", (false, single slave))
    ∷ ("rslave", (false, union (single slave) (single rec)))
    ∷ ("relatime", (false, single relatime))
    ∷ ("norelatime", (true, single relatime))
    ∷ ("strictatime", (false, single strictatime))
    ∷ ("nostrictatime", (true, single strictatime))
    ∷ []

unfoldable pub known_flags : String → Option (Bool × MsFlags)
unfolding get
known_flags opt = get opt flag_table

-- `options.push_str`, after a comma if something stands before it
unfoldable pub push_option : String → String → String
push_option options opt = if str_eq options "" then opt else options ++ "," ++ opt

-- the body of the loop: the flags and the data text so far, and one option
unfoldable pub add_option : String → MsFlags × String → MsFlags × String
unfolding known_flags push_option
add_option opt (flags, options) =
    if str_eq opt "" then (flags, options) else elim (known_flags opt) [
      | some (clear, f) ↦ (union flags f, options)
      | none ↦ (flags, push_option options opt)
    ]

unfoldable pub parse_from : List String → MsFlags × String → MsFlags × String
unfolding add_option
parse_from [] acc = acc
parse_from (opt ∷ opts) acc = parse_from opts (add_option opt acc)

-- `parse_mount_flags_and_options`
unfoldable pub parse_mount_flags_and_options : List String → MsFlags × String
unfolding parse_from
parse_mount_flags_and_options opts = parse_from opts (no_flags, "")

-- `parse_options`: the options of the form key=value, a later one over an earlier
unfoldable pub add_field : String → Dict String → Dict String
unfolding split put
add_field opt m = elim (split b'=' opt) [ k ∷ v ∷ [] ↦ put k v m | _ ↦ m ]

unfoldable pub parse_options_from : List String → Dict String → Dict String
unfolding add_field
parse_options_from [] m = m
parse_options_from (opt ∷ opts) m = parse_options_from opts (add_field opt m)

unfoldable pub parse_options : List String → Dict String
unfolding parse_options_from
parse_options opts = parse_options_from opts []
