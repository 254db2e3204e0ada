-- ===== src/Election/Leaders.antt =====
-- The partition's row under the statements of the election: its token and the instance it names.
use cyptocurrency_exchange_b.Prelude.{
  ℕ, suc, String, ◌≡◌, refl, inl, inr, true, false, ◌&&◌, Option, none, some, List, [], ◌∷◌,
  Bool-cases, ltb, str_eq, eq_iff, ◌==◌, arith,
}
use cyptocurrency_exchange_b.Store.World.{LeaderLock}
use cyptocurrency_exchange_b.Store.Locks.{find_lock, upsert_lock, extend_rows, release_rows}

-- The token of the partition's row, 0 where there is none, and the instance that leads.
abbrev pub token_of : Option LeaderLock → ℕ
token_of none = 0
token_of (some l) = l.fencing_token

abbrev pub leader_of : Option LeaderLock → String
leader_of none = ""
leader_of (some l) = l.leader_id

-- Rows that name the same leader with the same token.
pub record SameLeader (p : String) (rows rows' : List LeaderLock) : Type 0 where
  pub token : token_of (find_lock p rows') ≡ token_of (find_lock p rows)
  pub leader : leader_of (find_lock p rows') ≡ leader_of (find_lock p rows)

-- Rows where the instance has taken over, with the next token.
pub record NewLeader (p i : String) (won : ℕ) (rows rows' : List LeaderLock) : Type 0 where
  pub next : won ≡ suc (token_of (find_lock p rows))
  pub token : token_of (find_lock p rows') ≡ won
  pub leader : leader_of (find_lock p rows') ≡ i

abbrev pub Upserted : String → String → List LeaderLock → Option ℕ × List LeaderLock → Type 0
Upserted p i rows (none, rows') = SameLeader p rows rows'
Upserted p i rows (some token, rows') = NewLeader p i token rows rows'

str_eq_refl : (s : String) → str_eq s s ≡ true
str_eq_refl s = ground (arith, eq_iff s s)

-- A row of another partition in front changes nothing.
past :
    (p i : String) (l : LeaderLock) (rows : List LeaderLock) (r : Option ℕ × List LeaderLock)
    → str_eq l.partition p ≡ false
    → Upserted p i rows r
    → Upserted p i (l ∷ rows) (r.0, l ∷ r.1)
past p i l rows (none, rows') other h = record {
  token = rw (other, h.token) refl;
  leader = rw (other, h.leader) refl;
}
past p i l rows (some won, rows') other h = record {
  next = rw (other, h.next) refl;
  token = rw (other, h.token) refl;
  leader = rw (other, h.leader) refl;
}

pub upsert_lock-Upserted :
    (p i : String) (expires at : ℕ) (rows : List LeaderLock)
    → Upserted p i rows (upsert_lock p i expires at rows)
unfolding upsert_lock
upsert_lock-Upserted p i expires at [] = record {
  next = refl;
  token = rw (str_eq_refl p) refl;
  leader = rw (str_eq_refl p) refl;
}
upsert_lock-Upserted p i expires at (l ∷ rows) = elim (Bool-cases (str_eq l.partition p)) [
  | inl here ↦ elim (Bool-cases (ltb l.expires_at at)) [
    | inl over ↦
        rw (here, over)
          (record { next = rw here (omega arith); token = rw here refl; leader = rw here refl })
    | inr holds ↦ rw (here, holds) (record { token = refl; leader = refl })
  ]
  | inr there ↦ rw there (
      past p i l rows (upsert_lock p i expires at rows) there
        (upsert_lock-Upserted p i expires at rows))
]

extended_row :
    (p : String) (l l' : LeaderLock) (rows rows' : List LeaderLock)
    → l'.partition ≡ l.partition
    → l'.leader_id ≡ l.leader_id
    → l'.fencing_token ≡ l.fencing_token
    → SameLeader p rows rows'
    → SameLeader p (l ∷ rows) (l' ∷ rows')
extended_row p l l' rows rows' same_partition same_leader same_token h =
    elim (Bool-cases (str_eq l.partition p)) [
      | inl here ↦ record {
        token = rw (same_partition, here) same_token;
        leader = rw (same_partition, here) same_leader;
      }
      | inr there ↦ record {
        token = rw (same_partition, there) h.token;
        leader = rw (same_partition, there) h.leader;
      }
    ]

pub extend_rows-SameLeader :
    (q i : String) (token expires : ℕ) (p : String) (rows : List LeaderLock)
    → SameLeader p rows (extend_rows q i token expires rows).1
unfolding extend_rows
extend_rows-SameLeader q i token expires p [] = record { token = refl; leader = refl }
extend_rows-SameLeader q i token expires p (l ∷ rows) =
    elim (Bool-cases (str_eq l.partition q && (str_eq l.leader_id i && l.fencing_token == token))) [
      | inl hit ↦ rw hit (
          extended_row p l _ rows (extend_rows q i token expires rows).1 refl refl refl
            (extend_rows-SameLeader q i token expires p rows))
      | inr miss ↦ rw miss (
          extended_row p l l rows (extend_rows q i token expires rows).1 refl refl refl
            (extend_rows-SameLeader q i token expires p rows))
    ]

pub release_rows-SameLeader :
    (q i p : String) (rows : List LeaderLock) → SameLeader p rows (release_rows q i rows)
unfolding release_rows
release_rows-SameLeader q i p [] = record { token = refl; leader = refl }
release_rows-SameLeader q i p (l ∷ rows) =
    elim (Bool-cases (str_eq l.partition q && str_eq l.leader_id i)) [
      | inl hit ↦ rw hit (
          extended_row p l (record l { expires_at = 0 }) rows (release_rows q i rows) refl refl refl
            (release_rows-SameLeader q i p rows))
      | inr miss ↦ rw miss (
          extended_row p l l rows (release_rows q i rows) refl refl refl
            (release_rows-SameLeader q i p rows))
    ]
