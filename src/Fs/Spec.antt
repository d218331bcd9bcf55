-- ===== src/Fs/Spec.antt =====
-- What the callbacks of src/gcs_fs.cpp promise: a file system that has the stored objects and the
-- write buffers, and none of the caches.
pub mod Quiet
pub mod Changes
pub mod Reading
pub mod Remote
pub mod Direct
pub mod Refines
use gcscfuse.Base.{true, false, none, ◌⊎◌, [], Bool, some, if◌then◌else◌, ◌∷◌, Option, ◌≡◌, List, ℕ}
use gcscfuse.Fs.Writes.{resize, buffer_or_new, overwritten}
use gcscfuse.Reader.Slice.{slice, delivers, content_of}
use gcscfuse.Fs.Contents.{buffered_or, shown}
use gcscfuse.Base.Bytes.{same, Bytes}
use gcscfuse.Reader.{ReadResult}
use gcscfuse.Fs.State.{enoent}

pub record Files : Type 0 where
  pub stored : Bytes → Option Bytes
  pub buffer : Bytes → Option Bytes

-- What a read shows of a file.
abbrev pub seen : Files → Bytes → Bytes
seen f name = shown (f.buffer name) (f.stored name)

abbrev pub Agree : (Bytes → Option Bytes) → (Bytes → Option Bytes) → Type 0
Agree f g = (k : Bytes) → g k ≡ f k

-- A change at one name.
abbrev pub Sets : Bytes → Option Bytes → (Bytes → Option Bytes) → (Bytes → Option Bytes) → Type 0
Sets name content f g = (k : Bytes) → g k ≡ (if same name k then content else f k)

-- The callbacks, with what they were called for and what they returned; a read and a resize also
-- with whether their path was valid when they were called.
pub data Event : Type 0 where
  looked : Event
  served : Bytes → ℕ → ℕ → Bool → ReadResult → Event
  written : Bytes → Bytes → ℕ → Event
  created : Bytes → Event
  resized : Bytes → ℕ → Bool → Event
  flushed : Bytes → Bool → Event
  unlinked : Bytes → Bool → Event

-- The text that `truncate` resizes: the buffer; where there is none what a read shows; and where the
-- path is not valid an empty text. Where the path is valid and the buffer is empty it is any text.
abbrev pub Source : Bool → Option Bytes → Option Bytes → Bytes → Type 0
Source valid (some (x ∷ s)) remote content = content ≡ x ∷ s
Source true (some []) remote content = Unit
Source false (some []) remote content = content ≡ []
Source true none remote content = content ≡ shown none remote
Source false none remote content = content ≡ []

-- What an event does. An upload that failed can leave anything in its object.
abbrev pub Does : Event → Files → Files → Type 0
Does looked f g = Agree f.stored g.stored × Agree f.buffer g.buffer
Does (served name size offset valid r) f g =
    Agree f.stored g.stored
    × Agree f.buffer g.buffer
    × (r ≡ (
        if valid
        then delivers (slice (seen f name) size offset)
        else record { count = enoent; bytes = [] }))
Does (written name buf offset) f g =
    Agree f.stored g.stored
    × Sets name (some (overwritten buf offset (buffer_or_new (f.buffer name)))) f.buffer g.buffer
Does (created name) f g = Agree f.stored g.stored × Sets name (some []) f.buffer g.buffer
Does (resized name size valid) f g =
    Agree f.stored g.stored
    × (content : Bytes) × Source valid (f.buffer name) (f.stored name) content
    × Sets name (some (resize size content)) f.buffer g.buffer
Does (flushed name true) f g =
    Sets name (buffered_or (f.buffer name) (f.stored name)) f.stored g.stored
    × Agree f.buffer g.buffer
Does (flushed name false) f g =
    Agree f.buffer g.buffer × (left : Option Bytes) × Sets name left f.stored g.stored
Does (unlinked name true) f g = Sets name none f.stored g.stored × Sets name none f.buffer g.buffer
Does (unlinked name false) f g = Agree f.stored g.stored × Agree f.buffer g.buffer

-- A sequence of events, the last one first.
abbrev pub Ran : List Event → Files → Files → Type 0
Ran [] f g = Agree f.stored g.stored × Agree f.buffer g.buffer
Ran (event ∷ earlier) f g = (mid : Files) × Ran earlier f mid × Does event mid g
