-- ===== src/Launcher/Slots.antt =====
-- The array of actions, which is filled by a second read of the directory.
use dindexer.Common.{
  ℕ, zero, suc, arith, ◌+◌, ◌-◌, ◌≤◌, ◌≡◌, refl, ap, sym, ◌∙◌, inl, inr, some, List, [], ◌∷◌, ◌++◌,
  map, append_assoc, append-nil, Bytes, length, length-append, take, length-take, length-map,
  take-nil, ◌==◌, ==→eq, Bool-cases,
}
use dindexer.Launcher.FindActions.{
  DirEntry, foreach_dir, count_actions, push_actions, unwritten, find_slots,
}

count_actions-length : (as' : List Bytes) (n : ℕ) → count_actions as' n ≡ n + length as'
unfolding count_actions
count_actions-length [] n = omega arith
count_actions-length (a ∷ as') n = omega (arith, count_actions-length as' (n + 1))

push_actions-take :
    (as' : List Bytes) (n : ℕ) (list : List Bytes)
    → length list ≤ n
    → push_actions as' n list ≡ list ++ take (n - length list) as'
unfolding push_actions
push_actions-take [] n list h =
    sym (ap (λ l. list ++ l) (take-nil (n - length list)) ∙ append-nil list)
push_actions-take (a ∷ as') n list h = elim (Bool-cases (length list == n)) [
  | inl e ↦
      let z : n - length list ≡ 0 = omega (arith, ==→eq (length list) n e) in
      rw (e, z) (push_actions-take as' n list h ∙ ap (λ k. list ++ take k as') z)
  | inr ne ↦
      let k : n - length list ≡ suc (n - length (list ++ a ∷ [])) =
        ground (arith, length-append list (a ∷ [])) in
      rw (ne, k)
        (push_actions-take as' n (list ++ a ∷ []) (ground (arith, length-append list (a ∷ [])))
          ∙ append_assoc list (a ∷ []) (take (n - length (list ++ a ∷ [])) as'))
]

length-unwritten : (n : ℕ) → length (unwritten n) ≡ n
length-unwritten zero = refl
length-unwritten (suc n) = ap suc (length-unwritten n)

module _ (prefix : Bytes) (first second : List DirEntry) where
  -- The array of actions has as many slots as the first read of the directory finds. The second
  -- read fills them with as many of the actions that it finds, in order; if it finds fewer, the
  -- slots behind them are never written.
  pub find_slots-take :
      (length (find_slots prefix first second) ≡ length (foreach_dir prefix first))
      × (find_slots prefix first second
          ≡ map some (take (length (foreach_dir prefix first)) (foreach_dir prefix second))
            ++ unwritten (length (foreach_dir prefix first) - length (foreach_dir prefix second)))
  unfolding find_slots
  find_slots-take = (ap length slots ∙ size, slots)
    where
      n : ℕ
      n = length (foreach_dir prefix first)

      found : List Bytes
      found = foreach_dir prefix second

      slots :
          find_slots prefix first second ≡ map some (take n found) ++ unwritten (n - length found)
      slots =
          ap
            (λ c.
              map some (push_actions found c [])
              ++ unwritten (c - length (push_actions found c [])))
            (count_actions-length (foreach_dir prefix first) 0 ∙ omega arith)
          ∙ ap (λ l. map some l ++ unwritten (n - length l))
              (push_actions-take found n [] (omega arith) ∙ ap (λ k. take k found) (omega arith))
          ∙ ap (λ k. map some (take n found) ++ unwritten k) (omega (arith, length-take n found))

      size : length (map some (take n found) ++ unwritten (n - length found)) ≡ n
      size = omega (
        arith,
        length-append (map some (take n found)) (unwritten (n - length found)),
        length-map some (take n found),
        length-take n found,
        length-unwritten (n - length found),
      )
