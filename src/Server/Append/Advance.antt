-- ===== src/Server/Append/Advance.antt =====
-- The commit index after an append (`handle_append_entries`, src/server.rs).
use mini_raft.Prelude.{
  ℕ, zero, suc, ◌+◌, ◌≤◌, ltb, min, ◌≡◌, ◌≢◌, refl, ap, ◌∙◌, some, List, [], ◌∷◌, length, last?, ℤ,
  pos, negsuc, as_i32_small, i32_size, if◌then◌else◌, arith,
}
use mini_raft.Protocol.{LogEntry, AppendEntries}
use mini_raft.Server.Apply.Replay.{upto, count_to}
use mini_raft.Server.Append.{new_commit}
use mini_raft.Server.Append.Merge.{IsIndexedFrom}

-- How many entries are committed after n entries are in, of d that were, if the leader has committed
-- `known`: none more, or the known ones up to the last new one.
abbrev pub advanced : ℕ → ℕ → ℕ → ℕ
advanced known n d = if ltb d known then min known n else d

last-index :
    (p : ℕ) (es : List LogEntry)
    → es ≢ []
    → IsIndexedFrom p es
    → (e : LogEntry) × (last? es ≡ some e) × (e.index + 1 ≡ p + length es)
last-index p [] filled indexed = absurd (filled refl)
last-index p (e ∷ []) filled indexed = (e, refl, omega (arith, indexed.0))
last-index p (e ∷ e' ∷ es) filled (here, indexed) =
    let (l, found, index) = last-index (suc p) (e' ∷ es) (λ q. cc q) indexed in
    (l, found, omega (arith, index))

new_commit_at :
    (msg : AppendEntries) (lc : ℤ) (e : LogEntry) (n d : ℕ)
    → msg.leader_commit ≡ lc
    → e.index + 1 ≡ n
    → n ≤ i32_size
    → new_commit msg (some e) (upto d) ≡ upto (advanced (count_to lc) n d)
unfolding new_commit
new_commit_at msg (pos l) e zero d at index small = absurd (omega arith)
new_commit_at msg (pos l) e (suc n) zero at index small =
    rw (at, as_i32_small e.index (omega arith)) (ground arith)
new_commit_at msg (pos l) e (suc n) (suc d) at index small =
    rw (at, as_i32_small e.index (omega arith)) (ground arith)
new_commit_at msg (negsuc l) e n zero at index small = rw at (ground arith)
new_commit_at msg (negsuc l) e n (suc d) at index small = rw at (ground arith)

pub new_commit_lem :
    (msg : AppendEntries) (p d : ℕ)
    → msg.entries ≢ []
    → IsIndexedFrom p msg.entries
    → p + length msg.entries ≤ i32_size
    → new_commit msg (last? msg.entries) (upto d)
      ≡ upto (advanced (count_to msg.leader_commit) (p + length msg.entries) d)
new_commit_lem msg p d filled indexed small =
    let (e, found, index) = last-index p msg.entries filled indexed in
    ap (λ o. new_commit msg o (upto d)) found
    ∙ new_commit_at msg msg.leader_commit e (p + length msg.entries) d refl index small
