-- ===== src/Logring/Subscriber.antt =====
-- internal/core/logring/record.go and subscriber.go: a record, and one reader's live channel.
use quiver_core.Prelude.{
  ℕ, ℤ, lt_int, ltb, not, length, Bool, true, false, List, [], ◌∷◌, ◌++◌, if◌then◌else◌,
}

-- What the ring itself reads of a record are its number and its level; the type, time, component,
-- message and fields are the content.
pub record Record (A : Type 0) : Type 0 where
  pub seq : ℕ
  pub level : ℤ
  pub content : A

abbrev pub live_buffer : ℕ
live_buffer = 256

-- `subscriber`, with its channel as the records sent and not yet received, and whether it is
-- closed. `subscribed` is whether the ring's map holds its pointer.
pub record Subscriber (A : Type 0) : Type 0 where
  pub level : ℤ
  pub records : List (Record A)
  pub closed : Bool
  pub subscribed : Bool

module _ {A : Type 0} where
  unfoldable pub new_subscriber : ℤ → Subscriber A
  new_subscriber level = record { level = level; records = []; closed = false; subscribed = true }

  unfoldable pub wants : ℤ → Record A → Bool
  wants level rec = not (lt_int rec.level level)

  -- `remove`: the pointer leaves the map, and the channel is closed.
  unfoldable pub remove : Subscriber A → Subscriber A
  remove sub = if sub.subscribed then record sub { subscribed = false; closed = true } else sub

  -- `offer`, and whether the record was sent.
  unfoldable pub offer : Subscriber A → Record A → Subscriber A
  offer sub rec = record sub { records = sub.records ++ (rec ∷ []) }

  unfoldable pub has_room : Subscriber A → Bool
  has_room sub = ltb (length sub.records) live_buffer

  -- `deliver`, for a subscriber that the map holds.
  unfoldable pub deliver : Subscriber A → Record A → Subscriber A
  unfolding wants remove offer has_room
  deliver sub rec =
      if not (wants sub.level rec) then sub else if has_room sub then offer sub rec else remove sub

  -- The loop of `append` reaches the subscribers that the map holds.
  unfoldable pub notify : Record A → Subscriber A → Subscriber A
  unfolding deliver
  notify rec sub = if sub.subscribed then deliver sub rec else sub
