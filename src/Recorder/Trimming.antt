-- ===== src/Recorder/Trimming.antt =====
-- The two ends of a trimmed recording.
use nodetalk.Prelude.{ℕ, ◌+◌, ◌≤◌, ◌≡◌, refl, List, [], ◌∷◌, Option, none, some, arith, min}
use nodetalk.Audio.{AudioBuffer}
use nodetalk.Recorder.{
  Blob, Handle, start_handle, end_handle, Recorder, duration_of, show_preview, reset_trim,
  handle_pointer_down, handle_pointer_move, handle_pointer_up,
}

pub data Drag : Type 0 where
  presses : Handle → Drag
  moves : ℕ → Drag
  releases resets : Drag

unfoldable pub drag : Drag → Recorder → Recorder
unfolding handle_pointer_down handle_pointer_move handle_pointer_up reset_trim
drag (presses handle) r = handle_pointer_down handle r
drag (moves target) r = handle_pointer_move target r
drag releases r = handle_pointer_up r
drag resets r = reset_trim r

unfoldable pub drag_all : List Drag → Recorder → Recorder
unfolding drag
drag_all [] r = r
drag_all (d ∷ drags) r = drag_all drags (drag d r)

-- The ends lie in the audio, half a second apart, or as far as the audio is long.
pub record IsTrimmed (buffer : AudioBuffer) (r : Recorder) : Type 0 where
  pub same : r.audio_buffer ≡ some buffer
  pub within : r.trim_end ≤ duration_of buffer
  pub apart : r.trim_start + min 500 (duration_of buffer) ≤ r.trim_end

move-IsTrimmed :
    (handle : Option Handle) (target : ℕ) (buffer : AudioBuffer) (r : Recorder)
    → r.dragging ≡ handle
    → IsTrimmed buffer r
    → IsTrimmed buffer (handle_pointer_move target r)
unfolding handle_pointer_move
move-IsTrimmed none target buffer r e v = ground arith
move-IsTrimmed (some start_handle) target buffer r e v = ground arith
move-IsTrimmed (some end_handle) target buffer r e v = ground arith

reset-IsTrimmed :
    (buffer : AudioBuffer) (r : Recorder) → IsTrimmed buffer r → IsTrimmed buffer (reset_trim r)
unfolding reset_trim
reset-IsTrimmed buffer r v = ground arith

drag-IsTrimmed :
    (d : Drag) (buffer : AudioBuffer) (r : Recorder)
    → IsTrimmed buffer r
    → IsTrimmed buffer (drag d r)
unfolding drag
drag-IsTrimmed (presses handle) buffer r v = record {
  same = v.same;
  within = v.within;
  apart = v.apart;
}
drag-IsTrimmed (moves target) buffer r v = move-IsTrimmed r.dragging target buffer r refl v
drag-IsTrimmed releases buffer r v = record { same = v.same; within = v.within; apart = v.apart }
drag-IsTrimmed resets buffer r v = reset-IsTrimmed buffer r v

drags-IsTrimmed :
    (drags : List Drag) (buffer : AudioBuffer) (r : Recorder)
    → IsTrimmed buffer r
    → IsTrimmed buffer (drag_all drags r)
unfolding drag_all
drags-IsTrimmed [] buffer r v = v
drags-IsTrimmed (d ∷ drags) buffer r v =
    drags-IsTrimmed drags buffer (drag d r) (drag-IsTrimmed d buffer r v)

shown :
    (blob : Blob) (buffer : AudioBuffer) (r : Recorder)
    → IsTrimmed buffer (show_preview blob (some buffer) (duration_of buffer) r)
unfolding show_preview
shown blob buffer r = record { same = refl; within = omega arith; apart = omega arith }

-- Since the preview of a recording was shown, whatever handles are dragged to whatever places, and
-- however often the trim is reset: the end of the trimmed part is in the audio, and its start lies half a
-- second before the end at least, or the whole audio before it where that is shorter.
pub trim_bounds :
    (drags : List Drag) (blob : Blob) (buffer : AudioBuffer) (r : Recorder)
    → IsTrimmed buffer (drag_all drags (show_preview blob (some buffer) (duration_of buffer) r))
trim_bounds drags blob buffer r = drags-IsTrimmed drags buffer _ (shown blob buffer r)
