-- ===== src/Registry/Rooms.antt =====
-- The rooms: no two have one identifier or one name.
use dev_control_open_harmony.Prelude.{
  String, true, false, ◌≡◌, refl, none, arith, [], ◌∷◌, ◌++◌, ◌==◌, All, any, map, Option-cases,
  Bool-cases, inl, inr,
}
use dev_control_open_harmony.Errors.{ok, raise}
use dev_control_open_harmony.Dict.{Dict, get, values}
use dev_control_open_harmony.Dict.Laws.{put_absent}
use dev_control_open_harmony.Registry.{DeviceRegistry, Room, create_room, default_rooms}

-- neither the identifier nor the name of the room is that of the entry
abbrev pub Apart : Room → String × Room → Type 0
Apart room (id, other) = ((id == room.id) ≡ false) × ((other.name == room.name) ≡ false)

-- Rooms stand under their own identifiers, and differ in identifier and name from all later ones.
abbrev pub Distinct : Dict Room → Type 0
Distinct [] = Unit
Distinct ((id, room) ∷ rest) = (id ≡ room.id) × All (λ e. Apart e.1 (id, room)) rest × Distinct rest

absent-Apart :
    (room : Room) (rooms : Dict Room)
    → get room.id rooms ≡ none
    → any (λ other. other.name == room.name) (values rooms) ≡ false
    → All (Apart room) rooms
unfolding get
absent-Apart room [] h k = tt
absent-Apart room ((id, other) ∷ rest) h k = ground (arith, absent-Apart room rest)

All-Apart-append :
    (id : String) (other room : Room) (rest : Dict Room)
    → All (λ e. Apart e.1 (id, other)) rest
    → Apart room (id, other)
    → All (λ e. Apart e.1 (id, other)) (rest ++ (room.id, room) ∷ [])
All-Apart-append id other room [] h a = (a, tt)
All-Apart-append id other room (e ∷ rest) h a = (h.0, All-Apart-append id other room rest h.1 a)

append-Distinct :
    (room : Room) (rooms : Dict Room)
    → All (Apart room) rooms
    → Distinct rooms
    → Distinct (rooms ++ (room.id, room) ∷ [])
append-Distinct room [] h d = (refl, tt, tt)
append-Distinct room ((id, other) ∷ rest) h d =
    (d.0, All-Apart-append id other room rest d.1 h.0, append-Distinct room rest h.1 d.2)

-- The rooms of a new registry are distinct.
default_rooms-Distinct : Distinct (map (λ room. (room.id, room)) default_rooms)
default_rooms-Distinct = ground arith

-- create_room keeps the rooms distinct in identifier and name; with success the new room comes
-- last and the others stay as they were, with an error nothing changes.
pub create_room-Distinct :
    (id name : String) (r : DeviceRegistry)
    → Distinct r.rooms
    → let t = create_room id name r in
      Distinct t.1.rooms
      × (t.1.rooms ≡ (elim t.0 [ ok room ↦ r.rooms ++ (id, room) ∷ [] | raise e ↦ r.rooms ]))
unfolding create_room
create_room-Distinct id name r d =
    let room : Room = record { id = id; name = name; selectable = true } in
    elim (Option-cases (get id r.rooms)) [
      | inr (other, taken) ↦ ground arith
      | inl free ↦ elim (Bool-cases (any (λ other. other.name == name) (values r.rooms))) [
        | inl used ↦ ground arith
        | inr new ↦ ground (
          arith,
          put_absent id room r.rooms free,
          append-Distinct room r.rooms (absent-Apart room r.rooms free new) d,
        )
      ]
    ]
