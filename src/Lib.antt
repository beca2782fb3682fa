-- ===== src/Lib.antt =====
-- zenextras: codecs and containers beside the main image crates, modelled crate by crate.
--
-- The parts that are modelled, and how they interact:
--   * zenwebm/src/ebml.rs, the EBML layer under the WebM reader and writer. `Webm/Ebml.antt` has one definition for
--     each of its functions (`vint`, `header`, `children` with the iterator's `next`, `uint`, `int`, `float`, and the
--     writers `put_id` to `put_float`), `Webm/Ebml/Ids.antt` the element IDs, `Webm/Error.antt` the error type of
--     zenwebm/src/lib.rs. A writer appends to the list of bytes that it is given.
--   * zenwebm/src/mux.rs, the WebM writer. `Webm/Muxer/State.antt` has its state and report, `Webm/Muxer/Times.antt` the
--     ticks, nanoseconds and the tick of the segment (`ticks`, `nanos`, `choose_scale`, `gcd`), `Webm/Muxer/Tracks.antt`
--     `track_entry`, `Webm/Muxer/Blocks.antt` the blocks and groups and `without_temporal_delimiter`,
--     `Webm/Muxer/Opening.antt` `begin`, `Webm/Muxer/Clusters.antt` `close_cluster`, `Webm/Muxer.antt` `write_packet`, the
--     output and `finish`.
--   * zenwebm/src/demux.rs, the WebM reader. `Webm/Demuxer/State.antt` has its state, `Webm/Demuxer/Tracks.antt` and
--     `Webm/Demuxer/Build.antt` the tracks (`read_tracks`, `read_track`, `read_video`, `build_track`),
--     `Webm/Demuxer/Lacing.antt` `unlace`, `Webm/Demuxer/Heads.antt` the head of a block and the children of a group,
--     `Webm/Demuxer/Blocks.antt` `block` and `block_group`, `Webm/Demuxer/Info.antt` the document type,
--     `Webm/Demuxer/Picking.antt` `pick` and `position`, `Webm/Demuxer/Scanning.antt` `scan_step`,
--     `Webm/Demuxer/Elements.antt` and `Webm/Demuxer/Opening.antt` the steps over an element and over what precedes the
--     clusters, `Webm/Demuxer.antt` those over clusters and `step`, `Webm/Demuxer/Seeks.antt` `seek`. What the writer makes and the reader takes is
--     related in `Webm/RoundTrip.antt` and below it. `Webm/Types.antt` has the codec names of zenwebm/src/lib.rs and the
--     tracks, times and packets of the media library. Operations of both are actions (`Webm/Action.antt`): they give the
--     state that they leave and a result, and what was changed before a failure stays changed.
--   * zenpsd/src/parser.rs, the PSD and PSB decoder. `parse_layout` (`Psd/Layout.antt`) reads the file header
--     (`Psd/Header.antt`, over the enumerations of `Psd/Types.antt`), hands the resource section to
--     `parse_image_resources` (`Psd/Resources.antt`, into the records of `Psd/Metadata.antt`), and gives the ranges of the
--     sections. `decode_internal` and `decode_merged_image` (`Psd/Merged.antt`) decompress the planes, by PackBits
--     (`Psd/PackBits.antt`) or by an inflater and the predictor (`Psd/Prediction.antt`), and `interleave_planes`
--     (`Psd/Interleave.antt`) makes pixels of them, as `output_descriptor` says (`Psd/Output.antt`), in a buffer
--     of zenpsd/src/alloc_util.rs (`Psd/Alloc.antt`).
--   * zenivf/src/lib.rs, the IVF container. `Ivf/Reading.antt` has the reader's state and its header and packet
--     steps, `Ivf/Seeking.antt` the scan and the choice of a frame, `Ivf/Demuxer.antt` the step and the seek,
--     `Ivf/Muxer.antt` the writer, `Ivf/Types.antt` the constants, errors and codes. An operation of the reader returns the
--     reader that it leaves and what it answers, also where it fails.
-- Proofs stand in the child modules of a part, named for what they prove; examples in the `Tests` modules.
--
-- Numbers are native; the wrap-around of a 64-bit word is written out. In the EBML and IVF layers an `i64` is given by its
-- 64 bits, an `i128` by its 128 bits. In the WebM reader and writer they are integers (`Prelude/Int.antt`) that wrap where
-- the source's operators do (`sub_i64`, `wrap_i128`), and offsets in a file wrap at 2^64 (`add_u64`). A float is given by
-- its bits. `usize` has 64 bits and the host is little endian. A `Vec` or a slice is a list of numbers, bytes where a
-- theorem needs them to be; a `String` is its bytes.
--
-- Loops: `children` and the resource loop run on the length of their input, a PackBits scanline on the length of its
-- source, each of which takes a byte a round. The loop over the inflater has two rounds for each byte of payload and
-- planes, since a round takes or makes a byte or ends a stream that was begun. `gcd` has a round for each unit of its
-- second number and one more, since the rest falls; the children of a group are walked as those of any payload.
--
-- Parameters stand for code of other crates: the inflater of flate2 (`Inflater`, with its documented behaviour in
-- `IsInflater`), the stop and the pixel buffer, the allocator's answers, and the limits and constructors of the
-- media library (`Library`). An allocation that ends the program and the text of messages that other crates make are not
-- modelled. A panic of the IVF or WebM reader is the error `panicked`.
--
-- Not modelled: the inventories of all crates, and the crates for TIFF, JPEG 2000, SVG, PDF and EXR, which call decoders of other crates; adapters to codec traits and command-line tools.
pub mod Prelude
pub mod Webm
pub mod Psd
pub mod Ivf
