-- ===== src/DiscInfo/MountPoints.antt =====
-- Which mount point is found.
use dindexer.Common.{
  ℕ, zero, suc, ◌≤◌, ◌<◌, ◌≡◌, refl, sym, ap, ◌∙◌, arith, Bool, true, false, Option, none, List, [],
  ◌∷◌, Bytes, length, length-take, take, take_all, take-take, ltb, if◌then◌else◌,
}
use dindexer.Boost.{StringFind}
use dindexer.PathName
use dindexer.PathName.{PathName, path_name, pop_right, atom_count, slash, begins_with_slash}
use dindexer.PathName.Atoms.{atoms_of, HasAtoms, length-texts}
use dindexer.PathName.Edit.{pop_right-atoms}
use dindexer.PathName.Joint.{joined, path-joined}
use dindexer.PathName.Parse.{components, path_name-HasAtoms, path_name-components}
use dindexer.DiscInfo.{
  Mounts, Disks, device_at, find_mount, find_device, located_disc, with_labels, disc_info,
}

-- The texts of a path and of the directories above it, without the root.
abbrev pub upwards : Bool → List Bytes → ℕ → List Bytes
upwards abs atoms zero = []
upwards abs atoms (suc n) = joined abs (take (suc n) atoms) ∷ upwards abs atoms n

-- The first of the texts that is a mount point, with its device.
abbrev pub first_mounted : Mounts → List Bytes → Option (Bytes × Bytes)
first_mounted mounts [] = none
first_mounted mounts (t ∷ ts) = device_at (find_mount mounts t) t (first_mounted mounts ts)

count-atoms : (p : PathName) → length (atoms_of p) ≡ atom_count p
count-atoms p = length-texts p.atoms

atoms-pop_right :
    (p : PathName) (n : ℕ) (atoms : List Bytes)
    → HasAtoms p
    → atoms_of p ≡ take (suc n) atoms
    → suc n ≤ length atoms
    → (atoms_of (pop_right p) ≡ take n atoms) × (atom_count (pop_right p) ≡ n)
atoms-pop_right p n atoms h e l =
    let size : atom_count p ≡ suc n =
      omega (arith, count-atoms p, ap length e, length-take (suc n) atoms) in
    let less : atoms_of (pop_right p) ≡ take n atoms =
      (pop_right-atoms p h).1
      ∙ ap (λ k. take k (atoms_of p)) (omega arith)
      ∙ ap (λ l. take n l) e
      ∙ take-take n (suc n) atoms (omega arith) in
    (less, omega (arith, count-atoms (pop_right p), ap length less, length-take n atoms))

find_device-upwards :
    (fuel : ℕ) (mounts : Mounts) (p : PathName) (abs : Bool) (atoms : List Bytes) (n : ℕ)
    → HasAtoms p
    → p.absolute ≡ abs
    → atoms_of p ≡ take (suc n) atoms
    → suc n ≤ length atoms
    → n < fuel
    → find_device fuel mounts p ≡ first_mounted mounts (upwards abs atoms (suc n))
unfolding find_device pop_right
find_device-upwards zero mounts p abs atoms n h a e l f = absurd (omega arith)
find_device-upwards (suc fuel) mounts p abs atoms n h a e l f =
    let up = pop_right p in
    let t = joined abs (take (suc n) atoms) in
    let path_text : PathName.path p ≡ t =
      path-joined p ∙ ap (λ b. joined b (atoms_of p)) a ∙ ap (λ l. joined abs l) e in
    let popped = atoms-pop_right p n atoms h e l in
    ap
      (λ t.
        device_at (find_mount mounts t) t
          (if ltb 0 (atom_count up) then find_device fuel mounts up else none))
      path_text
    ∙ ap (λ m. device_at (find_mount mounts t) t m)
        (above n popped.1 (λ m e.
          find_device-upwards fuel mounts up abs atoms m (pop_right-atoms p h).0 a
            (popped.0 ∙ ap (λ k. take k atoms) e) (omega arith) (omega arith)))
  where
    above :
        (n : ℕ)
        → atom_count (pop_right p) ≡ n
        → ((m : ℕ)
            → n ≡ suc m
            → find_device fuel mounts (pop_right p)
              ≡ first_mounted mounts (upwards abs atoms (suc m)))
        → (if ltb 0 (atom_count (pop_right p)) then find_device fuel mounts (pop_right p) else none)
          ≡ first_mounted mounts (upwards abs atoms n)
    above zero z k =
        let no_more : ltb 0 (atom_count (pop_right p)) ≡ false = ground arith in rw no_more refl
    above (suc m) z k =
        let go_on : ltb 0 (atom_count (pop_right p)) ≡ true = ground arith in rw go_on (k m refl)

-- For a path with at least one component, `disc_info` is made from the first mount point among the
-- path and the directories above it, nearest first and without the root, with the labels of its
-- device, or without labels if there is none. The rounds of the loop are enough.
pub disc_info-upwards :
    (find : StringFind) (mounts : Mounts) (disks : Disks) (s : Bytes)
    → 0 < length (components s)
    → disc_info find mounts disks s
      ≡ with_labels disks (
          located_disc s (
            first_mounted mounts
              (upwards (begins_with_slash s) (components s) (length (components s)))))
unfolding disc_info
disc_info-upwards find mounts disks s h =
    ap (λ o. with_labels disks (located_disc s o)) (found (length (components s)) refl)
  where
    found :
        (n : ℕ)
        → length (components s) ≡ n
        → find_device (suc (atom_count (path_name find s))) mounts (path_name find s)
          ≡ first_mounted mounts (upwards (begins_with_slash s) (components s) n)
    found zero e = absurd (omega arith)
    found (suc n) e =
        let c = path_name-components find s in
        find_device-upwards (suc (atom_count (path_name find s))) mounts (path_name find s)
          (begins_with_slash s) (components s) n (path_name-HasAtoms find s) c.1
          (c.0 ∙ sym (take_all (components s)) ∙ ap (λ k. take k (components s)) e) (omega arith)
          (omega (arith, count-atoms (path_name find s), ap length c.0))
