-- ===== src/TokenEventCursorRepository.antt =====
-- src/repositories/token-event-cursor.repository.ts: how far the events of a token were processed.
use blockchain_transaction_s.Prelude.{
  ℕ, ◌+◌, String, Bool, Option, none, some, str_eq, ◌==◌, if◌then◌else◌,
}
use blockchain_transaction_s.Effects.{Result, ok, err, Action, call, known_request}
use blockchain_transaction_s.Schema.{World, TokenEventCursor}
use blockchain_transaction_s.Prisma.{Prisma}

abbrev pub of_token : String → TokenEventCursor → Bool
of_token token_id c = str_eq c.token_id token_id

abbrev pub new_cursor : String → TokenEventCursor
new_cursor token_id = record {
  token_id = token_id;
  last_processed_block = 0;
  last_processed_log_index = 0;
  last_successful_sync = none;
  last_failed_sync = none;
  failure_count = 0;
}

module _ (prisma : Prisma) where
  -- `upsert` with an empty `update`
  unfoldable pub get_or_create : String → Action World TokenEventCursor
  get_or_create token_id = call λ w.
      elim (prisma.token_event_cursor.find_first (of_token token_id) w.token_event_cursors) [
        | some c ↦ (ok c, w)
        | none ↦
            elim (prisma.token_event_cursor.create (new_cursor token_id) w.token_event_cursors) [
              | none ↦ (err (known_request "P2002" prisma.unique_violated), w)
              | some rows ↦ (ok (new_cursor token_id), record w { token_event_cursors = rows })
            ]
      ]

  -- `update`, which throws if there is no such row
  unfoldable pub update :
      String → (TokenEventCursor → TokenEventCursor) → World → Result (Unit {0}) × World
  update token_id f w =
      let (n, rows) =
        prisma.token_event_cursor.update_many (of_token token_id) f w.token_event_cursors in
      if n == 0
      then (err (known_request "P2025" prisma.record_not_found), w)
      else (ok tt, record w { token_event_cursors = rows })

  unfoldable pub mark_success : String → ℕ → Action World (Unit {0})
  mark_success token_id block_number = call λ w.
      update token_id
        (λ c. record c {
          last_processed_block = block_number;
          last_successful_sync = some w.clock;
          failure_count = 0;
        })
        w

  unfoldable pub mark_failure : String → Action World (Unit {0})
  mark_failure token_id = call λ w.
      update token_id
        (λ c. record c { last_failed_sync = some w.clock; failure_count = c.failure_count + 1 }) w

  unfoldable pub update_cursor : String → ℕ → ℕ → Action World (Unit {0})
  update_cursor token_id block_number log_index = call λ w.
      update token_id
        (λ c. record c {
          last_processed_block = block_number;
          last_processed_log_index = log_index;
        })
        w

  abbrev pub cursor : String → World → Option TokenEventCursor
  cursor token_id w = prisma.token_event_cursor.find_first (of_token token_id) w.token_event_cursors

  unfoldable pub find_by_token_id : String → Action World (Option TokenEventCursor)
  find_by_token_id token_id = call (λ w. (ok (cursor token_id w), w))
