-- ===== src/Server/Steps/Replicate.antt =====
-- The writes of `handle_append_entries_response` (src/server.rs).
use mini_raft.Prelude.{
  ℕ, zero, suc, ◌+◌, ◌-◌, ◌/◌, ◌≤◌, ◌==◌, ℤ, pos, negsuc, ◌≤ℤ◌, ◌<ℤ◌, span, count_up, pos_part,
  neg_part, range_inclusive, ltb, ltb→lt, i32_size, as_i32, as_usize, inc_i32, inc_u64,
  sub_unsigned, ◌≡◌, refl, inl, inr, Bool, ◌&&◌, Option, none, some, List, [], ◌∷◌, get_elem?,
  write, length-write, slice_from, drop, arith,
}
use mini_raft.Protocol.{
  NodeId, LogEntry, LogCommand, Message, AppendEntriesResponse, append_entries_response_type,
  RemoteId, client, peer,
}
use mini_raft.StateMachine.{StateMachine}
use mini_raft.Server.State.{Server, RaftState, follower, candidate, leader}
use mini_raft.Server.Action.{Action}
use mini_raft.Server.Roles.{become_follower_if_higher_term}
use mini_raft.Server.Replicate.{
  match_count, client_reply, retry_message, record_success, record_failure, check_index,
  find_commit, update_commit, send_reply, answer_client, acknowledge_as, apply_rounds,
  finish_commit, response_from, response_as, handle_append_entries_response,
}
use mini_raft.Server.Steps.{Steps, then_write, tracked, committed, settled, followed}
use mini_raft.Server.Steps.Rules.{Runs, after, given, branch, done, ignored, sends}
use mini_raft.Server.Steps.Apply.{apply_latest-Runs}
use mini_raft.Server.Steps.Vote.{after_last_log_index}

slice_from-some : {A : Type 0} (i : ℕ) (xs ys : List A) → slice_from i xs ≡ some ys → ys ≡ drop i xs
slice_from-some zero xs ys e = cc e
slice_from-some (suc i) [] ys e = cc e
slice_from-some (suc i) (x ∷ xs) ys e = slice_from-some i xs ys e

-- Indices that an `i32` holds, none below a commit index.
abbrev AllAbove : ℤ → List ℤ → Type 0
AllAbove commit [] = Unit
AllAbove commit (z ∷ zs) = ((commit ≤ℤ z) × (z <ℤ pos i32_size)) × AllAbove commit zs

count_up-AllAbove :
    (commit z : ℤ) (k : ℕ)
    → commit ≤ℤ z
    → pos_part z + k ≤ i32_size + neg_part z
    → AllAbove commit (count_up z k)
count_up-AllAbove commit z zero le h = tt
count_up-AllAbove commit (pos n) (suc k) le h =
    ((le, omega arith), count_up-AllAbove commit (pos (suc n)) k (omega arith) (omega arith))
count_up-AllAbove commit (negsuc zero) (suc k) le h =
    ((le, omega arith), count_up-AllAbove commit (pos 0) k (omega arith) (omega arith))
count_up-AllAbove commit (negsuc (suc n)) (suc k) le h =
    ((le, omega arith), count_up-AllAbove commit (negsuc n) k (omega arith) (omega arith))

inc_i32-small : (c z : ℤ) → inc_i32 c ≡ some z → pos_part z ≤ i32_size
inc_i32-small (pos n) z e = ground arith
inc_i32-small (negsuc zero) z e = ground arith
inc_i32-small (negsuc (suc n)) z e = ground arith

range-AllAbove :
    (commit start last : ℤ)
    → inc_i32 commit ≡ some start
    → last <ℤ pos i32_size
    → AllAbove commit (range_inclusive start last)
range-AllAbove commit start last e small =
    count_up-AllAbove commit start (span start last) (above commit e)
      (omega (arith, inc_i32-small commit start e))
  where
    above : (c : ℤ) → inc_i32 c ≡ some start → c ≤ℤ start
    above (pos n) e = ground arith
    above (negsuc zero) e = ground arith
    above (negsuc (suc n)) e = ground arith

module _ {S : Type 0} {Heard : Message → Type 0} {s : Server S} where
  record_success-Runs :
      (i : NodeId) (m : List ℤ) (n : List ℕ) (t : Server S)
      → Steps Heard s t
      → t.state ≡ leader m n
      → Runs Heard s (record_success i m n t)
  unfolding record_success
  record_success-Runs i m n t h e = given (get_elem? t.last_sent_index i) _ h (λ last _.
      given (write m i last) _ h (λ m₁ w. given (inc_u64 (as_usize last)) _ h (λ following _.
        given (write n i following) _ h (λ n₁ v. done (
          then_write h
            (tracked m n m₁ n₁ e (length-write m i last w) (length-write n i following v)))))))

  record_failure-Runs :
      (i : NodeId) (m : List ℤ) (n : List ℕ) (t : Server S)
      → Steps Heard s t
      → t.state ≡ leader m n
      → Runs Heard s (record_failure i m n t)
  unfolding record_failure retry_message
  record_failure-Runs i m n t h e = given (get_elem? n i) _ h (λ next _.
      given (write n i (next - 1)) _ h (λ n₁ v.
        let r = then_write h (tracked m n m n₁ e refl (length-write n i (next - 1) v)) in
        given (get_elem? t.log (as_usize (as_i32 (next - 1)))) _ r (λ entry _.
          given (slice_from (next - 1) t.log) _ r (λ entries q.
            after _ (sends _ _ r (refl, next - 1, slice_from-some (next - 1) t.log entries q))
              (λ _ _ u. done u)))))

  check_index-Runs :
      (m : List ℤ) (n : ℤ) (rest : Action S Bool) (t : Server S)
      → Steps Heard s t
      → (t.commit_index ≤ℤ n) × (n <ℤ pos i32_size)
      → Runs Heard s (rest t)
      → Runs Heard s (check_index m n rest t)
  unfolding check_index
  check_index-Runs m n rest t h (le, small) k = given (get_elem? t.log (as_usize n)) _ h (λ entry _.
      branch (entry.term == t.current_term) _ _ t
        (λ _. given (sub_unsigned (t.config.total_nodes / 2) 1) _ h (λ threshold _.
          branch (ltb threshold (match_count n m)) _ _ t
            (λ _. done (then_write h (committed n (inl small, inr le)))) (λ _. k)))
        (λ _. k))

  find_commit-Runs :
      (m ns : List ℤ) (t : Server S)
      → Steps Heard s t
      → AllAbove t.commit_index ns
      → Runs Heard s (find_commit m ns t)
  unfolding find_commit
  find_commit-Runs m [] t h a = done h
  find_commit-Runs m (n ∷ ns) t h (a, as₁) =
      check_index-Runs m n _ t h a (find_commit-Runs m ns t h as₁)

  update_commit-Runs :
      (m : List ℤ) (t : Server S) → Steps Heard s t → Runs Heard s (update_commit m t)
  unfolding update_commit
  update_commit-Runs m t h = after_last_log_index t.log _ t refl h (λ last small.
      given (inc_i32 t.commit_index) _ h (λ start e.
        find_commit-Runs m (range_inclusive start last) t h
          (range-AllAbove t.commit_index start last e small)))

  answer_client-Runs :
      (e : Option LogEntry) (t : Server S) → Steps Heard s t → Runs Heard s (answer_client e t)
  unfolding answer_client
  answer_client-Runs none t h = done h
  answer_client-Runs (some e) t h = reply e.command
    where
      reply : (command : LogCommand) → Runs Heard s (send_reply (client_reply e command) t)
      reply (LogCommand.set _ _) = sends _ t h tt
      reply (LogCommand.delete _) = sends _ t h tt
      reply (LogCommand.get _) = done h

  acknowledge_as-Runs :
      (role : RaftState) (t : Server S)
      → Steps Heard s t
      → t.state ≡ role
      → Runs Heard s (acknowledge_as role t)
  unfolding acknowledge_as
  acknowledge_as-Runs (leader m n) t h e = given (write m t.id t.commit_index) _ h (λ m₁ w.
      answer_client-Runs _ _
        (then_write h (tracked m n m₁ n e (length-write m t.id t.commit_index w) refl)))
  acknowledge_as-Runs follower t h e = done h
  acknowledge_as-Runs (candidate _) t h e = done h

module _ {S : Type 0} ⦃sm : StateMachine S⦄ {Heard : Message → Type 0} {s : Server S} where
  apply_rounds-Runs :
      (n : ℕ) (c : ℤ) (t : Server S) → Steps Heard s t → Runs Heard s (apply_rounds n c t)
  unfolding apply_rounds
  apply_rounds-Runs zero c t h = done h
  apply_rounds-Runs (suc n) c t h =
      after _ (ignored (apply_latest-Runs c t h)) (λ _ _ r. apply_rounds-Runs n c _ r)

  finish_commit-Runs : (t : Server S) → Steps Heard s t → Runs Heard s (finish_commit t)
  unfolding finish_commit
  finish_commit-Runs t h = given (inc_i32 t.last_applied) _ h (λ first _.
      after _ (apply_rounds-Runs (span first t.commit_index) t.commit_index t h)
        (λ _ _ r. acknowledge_as-Runs _ _ (then_write r settled) refl))

  response_from-Runs :
      (from : RemoteId) (m : List ℤ) (n : List ℕ) (success : Bool) (t : Server S)
      → Steps Heard s t
      → t.state ≡ leader m n
      → Runs Heard s (response_from from m n success t)
  unfolding response_from
  response_from-Runs (client _) m n success t h e = done h
  response_from-Runs (peer i) m n success t h e =
      after _
        (branch success _ _ t (λ _. record_success-Runs i m n t h e)
          (λ _. record_failure-Runs i m n t h e))
        (λ m₁ _ r. after _ (update_commit-Runs m₁ _ r) (λ updated _ q.
          branch (success && updated) _ _ _ (λ _. finish_commit-Runs _ q) (λ _. done q)))

  response_as-Runs :
      (role : RaftState) (from : RemoteId) (msg : AppendEntriesResponse) (t : Server S)
      → Steps Heard s t
      → t.state ≡ role
      → Heard (append_entries_response_type msg)
      → Runs Heard s (response_as role from msg t)
  unfolding response_as become_follower_if_higher_term
  response_as-Runs (leader m n) from msg t h e g =
      branch (ltb t.current_term msg.term) _ _ t
        (λ lt. done (
          then_write h (
            followed (append_entries_response_type msg) msg.term g refl
              (omega (arith, ltb→lt t.current_term msg.term lt)))))
        (λ _. response_from-Runs from m n msg.success t h e)
  response_as-Runs follower from msg t h e g = done h
  response_as-Runs (candidate _) from msg t h e g = done h

  pub append_response-Runs :
      (from : RemoteId) (msg : Message) (t : Server S)
      → Steps Heard s t
      → Heard msg
      → Runs Heard s (handle_append_entries_response from msg t)
  unfolding handle_append_entries_response
  append_response-Runs from (append_entries_response_type msg) t h g =
      response_as-Runs t.state from msg t h refl g
  append_response-Runs from _ t h g = done h
