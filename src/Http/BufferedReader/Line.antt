-- ===== src/Http/BufferedReader/Line.antt =====
-- `readLine`.
pub mod Room
pub mod View
pub mod Finds
use mathlib.Core.Path.{subst}
use mathlib.Core.List.{append_assoc, append-nil}
use cupcake.Base.{
  take_all, take_front, drop_front, drop-drop, nil_of_length, zero, suc, ◌*◌, ◌≤◌, ◌≢◌, sym, ◌⊎◌,
  inl, inr, Bool-cases, Bool, true, not, ◌&&◌, [], ◌++◌, List, Option, none, some, min, ltb,
  if◌then◌else◌, Lacks, take, drop, length-append, length-take, length-drop, take-append-drop,
  take-length-append, drop-length-append,
}
use cupcake.Base.Word.{uint32_mod, add_uint32}
use cupcake.Http.BufferedReader.Layout.{
  Holds, drop-start, take_back, drop_back, with_bytes-IsLayout, length-new_buffer,
}
use cupcake.Http.BufferedReader.{
  buffer_len, write_at, new_buffer, checked_double, find_newline, make_room, with_bytes,
}
use cupcake.Http.Stream.{
  Reply, ok, err, HttpError, eof, Source, source_read, source_read-cases, on_reply,
}
