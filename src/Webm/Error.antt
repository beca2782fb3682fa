-- ===== src/Webm/Error.antt =====
-- zenwebm/src/lib.rs: the error type. Each constructor is the variant of the same name.
pub data WebmError : Type 0 where
  not_ebml unsupported_doc_type bad_vint bad_integer bad_float : WebmError
  unknown_size overrun truncated no_segment no_tracks duplicate_tracks : WebmError
  bad_track_number undeclared_track bad_video_size bad_audio : WebmError
  bad_timestamp_scale track_timestamp_scale content_encoding : WebmError
  block_before_timestamp bad_block empty_frame timestamp_overflow : WebmError
  headers_first no_such_track no_such_frame unsupported_codec : WebmError
  unsupported_track_kind too_many_tracks mixed_clocks inexact_timestamp : WebmError
  negative_timestamp out_of_order discard_both_ends epoch_change edit_list : WebmError
