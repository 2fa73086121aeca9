-- ===== src/Server/Append/Kept.antt =====
-- What holds of the entries of a message and of the entries of a log holds of the log after
-- `delete_conflicting_and_append_new_entries` (src/server.rs).
use mini_raft.Prelude.{
  ◌==◌, ◌≡◌, subst, Bool-cases, inl, inr, Option, none, some, List, [], ◌∷◌, get_elem?, insert_at,
  AllOf, AllOf-append, AllOf-take, AllOfSome, AllOfSome-then, AllOf-insert_at,
}
use mini_raft.Protocol.{LogEntry}
use mini_raft.Server.Append.{check_entry, check_entries, insert_all, merge_entries}

module _ (P : LogEntry → Type 0) where
  check_entry-AllOf :
      (e : LogEntry) (o : Option LogEntry) (log fresh : List LogEntry)
      → P e
      → AllOf P log
      → AllOf P fresh
      → AllOf P (check_entry e o log fresh).0 × AllOf P (check_entry e o log fresh).1
  unfolding check_entry
  check_entry-AllOf e none log fresh p h k = (h, AllOf-append P fresh (e ∷ []) k (p, tt))
  check_entry-AllOf e (some x) log fresh p h k = elim (Bool-cases (x.term == e.term)) [
    | inl same ↦ rw same (h, k)
    | inr differ ↦ rw differ (AllOf-take P e.index log h, AllOf-append P fresh (e ∷ []) k (p, tt))
  ]

  check_entries-AllOf :
      (es log fresh : List LogEntry)
      → AllOf P es
      → AllOf P log
      → AllOf P fresh
      → AllOf P (check_entries es log fresh).0 × AllOf P (check_entries es log fresh).1
  unfolding check_entries
  check_entries-AllOf [] log fresh p h k = (h, k)
  check_entries-AllOf (e ∷ es) log fresh p h k =
      let (l, f) = check_entry-AllOf e (get_elem? log e.index) log fresh p.0 h k in
      check_entries-AllOf es _ _ p.1 l f

  insert_all-AllOf :
      (es log : List LogEntry) → AllOf P es → AllOf P log → AllOfSome P (insert_all es log)
  unfolding insert_all
  insert_all-AllOf [] log p h = h
  insert_all-AllOf (e ∷ es) log p h =
      AllOfSome-then P (insert_all es) (insert_at e.index e log)
        (AllOf-insert_at P e.index e log p.0 h) (λ longer g. insert_all-AllOf es longer p.1 g)

  pub merge_entries-AllOf :
      (es log longer : List LogEntry)
      → AllOf P es
      → AllOf P log
      → merge_entries es log ≡ some longer
      → AllOf P longer
  unfolding merge_entries
  merge_entries-AllOf es log longer p h e =
      let (l, f) = check_entries-AllOf es log [] p h tt in
      subst (AllOfSome P) e (insert_all-AllOf _ _ f l)
