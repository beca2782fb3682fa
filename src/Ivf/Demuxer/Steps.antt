-- ===== src/Ivf/Demuxer/Steps.antt =====
-- What a step does in a state that is known.
use zenextras.Prelude.{true, [], ok, ◌≡◌, ap}
use zenextras.Ivf.Reading.{
  State, in_header, in_packets, scanning, done, all_done, IvfDemuxer, Input,
}
use zenextras.Ivf.Reading.{Outcome, Library, header, packet}
use zenextras.Ivf.Seeking.{scan}
use zenextras.Ivf.Demuxer.{step}

pub step-packet :
    (lib : Library) (d : IvfDemuxer) (input : Input)
    → d.state ≡ in_packets
    → step lib true d input ≡ packet lib (record d { requests = [] }) input
unfolding step
step-packet lib d input e = ap (λ (s : State). in_state s) e
  where
    cleared : IvfDemuxer
    cleared = record d { requests = [] }

    in_state : State → Outcome
    in_state s = elim s [
      | in_header ↦ header lib cleared input
      | in_packets ↦ packet lib cleared input
      | scanning ↦ scan lib cleared input
      | done ↦ (cleared, ok (0, all_done))
    ]

pub step-scan :
    (lib : Library) (d : IvfDemuxer) (input : Input)
    → d.state ≡ scanning
    → step lib true d input ≡ scan lib (record d { requests = [] }) input
unfolding step
step-scan lib d input e = ap (λ (s : State). in_state s) e
  where
    cleared : IvfDemuxer
    cleared = record d { requests = [] }

    in_state : State → Outcome
    in_state s = elim s [
      | in_header ↦ header lib cleared input
      | in_packets ↦ packet lib cleared input
      | scanning ↦ scan lib cleared input
      | done ↦ (cleared, ok (0, all_done))
    ]
