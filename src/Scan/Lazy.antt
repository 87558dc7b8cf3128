-- ===== src/Scan/Lazy.antt =====
-- include/dindexer-machinery/scantask/leanbase.hpp and base.hpp: a task fills its data when it is first
-- asked for them. src/machinery/scantask/setbasic.cpp: the task that names a set.
use dindexer.Common.{
  ℕ, ◌≡◌, refl, inl, inr, Bool, true, false, Option, some, none, [], Bytes, if◌then◌else◌,
  Bool-cases,
}

-- The flag of `LeanBase`, and the data of `Base`.
pub record Task (T : Type 0) : Type 0 where
  pub data_created : Bool
  pub stored : T

-- `on_data_create`: the data that it leaves, and whether it ended without an exception.
abbrev pub Creator : Type 0 → Type 0
Creator T = T → T × Bool

module _ {T : Type 0} where
  abbrev pub with_data : Bool → Task T → Task T × Option T
  with_data true t = (t, some t.stored)
  with_data false t = (t, none)

  -- `LeanBase::get_or_create` of a `Base`; no data when an exception leaves it.
  unfoldable pub get_or_create : Creator T → Task T → Task T × Option T
  get_or_create create t =
      let filled = create t.stored in
      if t.data_created
      then with_data true t
      else with_data filled.1 (record { data_created = true; stored = filled.0 })

  pub clear_data : (T → T) → Task T → Task T
  clear_data destroy t = record { data_created = false; stored = destroy t.stored }

  -- Asking a task for its data a second time runs nothing: it gives what is stored and changes
  -- nothing, also if an exception left the first call.
  pub get_or_create-twice :
      (create : Creator T) (t : Task T)
      → (let u = (get_or_create create t).0 in get_or_create create u ≡ (u, some u.stored))
  unfolding get_or_create
  get_or_create-twice create t = elim (Bool-cases t.data_created) [
    | inl y ↦ rw (y) refl
    | inr n ↦ elim (Bool-cases (create t.stored).1) [
      | inl k ↦ rw (n, k) refl
      | inr k ↦ rw (n, k) refl
    ]
  ]

  -- After the data are cleared, the next call fills them again, from what clearing left.
  pub get_or_create-clear_data :
      (create : Creator T) (destroy : T → T) (t : Task T)
      → (let made = create (destroy t.stored) in
          get_or_create create (clear_data destroy t) ≡ (
            record { data_created = true; stored = made.0 },
            (if made.1 then some made.0 else none),
          ))
  unfolding get_or_create clear_data
  get_or_create-clear_data create destroy t = elim (Bool-cases (create (destroy t.stored)).1) [
    | inl k ↦ rw (k) refl
    | inr k ↦ rw (k) refl
  ]

pub record SetRecordDataFull : Type 0 where
  pub name : Bytes
  pub disk_label : Bytes
  pub fs_uuid : Bytes
  pub disk_number : ℕ
  pub type : ℕ
  pub content_type : ℕ

pub set_basic_destroy : SetRecordDataFull → SetRecordDataFull
set_basic_destroy d = record d { name = []; disk_label = []; fs_uuid = [] }

unfoldable pub set_basic_create : Bytes → Creator SetRecordDataFull
set_basic_create set_name d = (record d { name = set_name; disk_label = []; fs_uuid = [] }, true)
