-- ===== src/Mpegps/Error.antt =====
-- The errors of gb28181/mpegps: the three of ps_proto.go that implement its `Error` interface, and
-- those made by `errors.New`, which do not.
use lalmax.Base.{Bool, true, false}

pub data Error : Type 0 where
  need_more parser_error not_found : Error
  bad_pack_start bad_system_start bad_map_start bad_map_id bad_directory_start : Error
  header_missing no_nalu : Error

-- The type assertion `err.(Error)`.
unfoldable pub is_mpeg_error : Error → Bool
is_mpeg_error need_more = true
is_mpeg_error parser_error = true
is_mpeg_error not_found = true
is_mpeg_error _ = false

-- `NeedMore()`.
unfoldable pub is_need_more : Error → Bool
is_need_more need_more = true
is_need_more _ = false
