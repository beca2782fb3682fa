-- ===== src/Webm/Ebml/Ids.antt =====
-- zenwebm/src/ebml.rs, `mod id`: the element IDs that the crate reads or writes.
use zenextras.Prelude.{ℕ, Bool, ◌||◌, ◌==◌}

abbrev pub ebml : ℕ
ebml = 0x1a45dfa3

abbrev pub ebml_version : ℕ
ebml_version = 0x4286

abbrev pub ebml_read_version : ℕ
ebml_read_version = 0x42f7

abbrev pub ebml_max_id_length : ℕ
ebml_max_id_length = 0x42f2

abbrev pub ebml_max_size_length : ℕ
ebml_max_size_length = 0x42f3

abbrev pub doc_type : ℕ
doc_type = 0x4282

abbrev pub doc_type_version : ℕ
doc_type_version = 0x4287

abbrev pub doc_type_read_version : ℕ
doc_type_read_version = 0x4285

abbrev pub void : ℕ
void = 0xec

abbrev pub crc32 : ℕ
crc32 = 0xbf

abbrev pub segment : ℕ
segment = 0x18538067

abbrev pub seek_head : ℕ
seek_head = 0x114d9b74

abbrev pub info : ℕ
info = 0x1549a966

abbrev pub timestamp_scale : ℕ
timestamp_scale = 0x2ad7b1

abbrev pub muxing_app : ℕ
muxing_app = 0x4d80

abbrev pub writing_app : ℕ
writing_app = 0x5741

abbrev pub tracks : ℕ
tracks = 0x1654ae6b

abbrev pub cluster : ℕ
cluster = 0x1f43b675

abbrev pub cues : ℕ
cues = 0x1c53bb6b

abbrev pub tags : ℕ
tags = 0x1254c367

abbrev pub chapters : ℕ
chapters = 0x1043a770

abbrev pub attachments : ℕ
attachments = 0x1941a469

abbrev pub track_entry : ℕ
track_entry = 0xae

abbrev pub track_number : ℕ
track_number = 0xd7

abbrev pub track_uid : ℕ
track_uid = 0x73c5

abbrev pub track_type : ℕ
track_type = 0x83

abbrev pub flag_lacing : ℕ
flag_lacing = 0x9c

abbrev pub codec_id : ℕ
codec_id = 0x86

abbrev pub codec_private : ℕ
codec_private = 0x63a2

abbrev pub codec_delay : ℕ
codec_delay = 0x56aa

abbrev pub seek_pre_roll : ℕ
seek_pre_roll = 0x56bb

abbrev pub track_timestamp_scale : ℕ
track_timestamp_scale = 0x0023314f

abbrev pub content_encodings : ℕ
content_encodings = 0x6d80

abbrev pub video : ℕ
video = 0xe0

abbrev pub pixel_width : ℕ
pixel_width = 0xb0

abbrev pub pixel_height : ℕ
pixel_height = 0xba

abbrev pub display_width : ℕ
display_width = 0x54b0

abbrev pub display_height : ℕ
display_height = 0x54ba

abbrev pub display_unit : ℕ
display_unit = 0x54b2

abbrev pub colour : ℕ
colour = 0x55b0

abbrev pub matrix_coefficients : ℕ
matrix_coefficients = 0x55b1

abbrev pub range : ℕ
range = 0x55b9

abbrev pub transfer_characteristics : ℕ
transfer_characteristics = 0x55ba

abbrev pub primaries : ℕ
primaries = 0x55bb

abbrev pub audio : ℕ
audio = 0xe1

abbrev pub sampling_frequency : ℕ
sampling_frequency = 0xb5

abbrev pub channels : ℕ
channels = 0x9f

abbrev pub timestamp : ℕ
timestamp = 0xe7

abbrev pub simple_block : ℕ
simple_block = 0xa3

abbrev pub block_group : ℕ
block_group = 0xa0

abbrev pub block : ℕ
block = 0xa1

abbrev pub block_additions : ℕ
block_additions = 0x75a1

abbrev pub block_more : ℕ
block_more = 0xa6

abbrev pub block_add_id : ℕ
block_add_id = 0xee

abbrev pub block_additional : ℕ
block_additional = 0xa5

abbrev pub block_duration : ℕ
block_duration = 0x9b

abbrev pub reference_block : ℕ
reference_block = 0xfb

abbrev pub discard_padding : ℕ
discard_padding = 0x75a2

-- Children of Segment: in a Cluster of unknown size, one of these ends the Cluster.
unfoldable pub is_top_level : ℕ → Bool
is_top_level i =
    i == seek_head
    || i == info
    || i == tracks
    || i == cluster
    || i == cues
    || i == tags
    || i == chapters
    || i == attachments
