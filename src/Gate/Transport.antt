-- ===== src/Gate/Transport.antt =====
-- How `recv_request` of scripts/action_gate/server.py finds the request in the stream.
use frankensteinz_hermes.Gate.Server.{
  Bytes, max_request_bytes, has_newline, first_line, receive, request_line,
}
use frankensteinz_hermes.Base.{
  ap, sym, append_assoc, Bool-cases, ltb, if-else, length-append, append-nil, >>=-eq-ok, length,
  is_empty, All, ℕ, List, ◌∙◌, arith, inr, inl, false, true, err, ok, refl, [], if◌then◌else◌, ◌≤◌,
  ◌+◌, ◌≡◌, ◌++◌, ◌∷◌,
}
use frankensteinz_hermes.Python.{value_error}

-- The bytes of a stream, whatever its chunks.
abbrev pub stream : List Bytes → Bytes
stream [] = []
stream (chunk ∷ chunks) = chunk ++ stream chunks

first_line-no_newline : (bs : Bytes) → has_newline (first_line bs) ≡ false
first_line-no_newline [] = refl
first_line-no_newline (b ∷ bs) = ground (arith, first_line-no_newline bs)

first_line-length : (bs : Bytes) → length (first_line bs) ≤ length bs
first_line-length [] = omega arith
first_line-length (b ∷ bs) = ground (arith, first_line-length bs)

-- Bytes after a newline do not change the first line.
first_line-append : (xs ys : Bytes) → has_newline xs ≡ true → first_line (xs ++ ys) ≡ first_line xs
first_line-append [] ys h = cc
first_line-append (x ∷ xs) ys h = ground (arith, first_line-append xs ys)

has_newline-append : (xs ys : Bytes) → has_newline ys ≡ true → has_newline (xs ++ ys) ≡ true
has_newline-append [] ys h = h
has_newline-append (x ∷ xs) ys h = ground (arith, has_newline-append xs ys)

receive-length :
    (chunks : List Bytes) (total : ℕ) (received result : Bytes)
    → total ≡ length received
    → total ≤ max_request_bytes
    → receive chunks total received ≡ ok result
    → length result ≤ max_request_bytes
unfolding receive
receive-length [] total received result e le h = ground (arith, e)
receive-length (chunk ∷ chunks) total received result e le h = ground (
  arith,
  length-append received chunk,
  receive-length chunks (total + length chunk) (received ++ chunk) result,
)

-- A line that is accepted is not empty, has no newline in it, and is at most 65536 bytes long.
pub request_line_bounds :
    (chunks : List Bytes) (line : Bytes)
    → request_line chunks ≡ ok line
    → (is_empty line ≡ false) × (has_newline line ≡ false) × (length line ≤ max_request_bytes)
unfolding request_line
request_line_bounds chunks line h =
    let (received, found, h₁) = >>=-eq-ok (receive chunks 0 []) _ h in
    let (not_empty, h₂) = if-else (is_empty (first_line received)) h₁ (λ e. cc) in
    let same : first_line received ≡ line = cc h₂ in
    (
      rw (← same) not_empty,
      rw (← same) (first_line-no_newline received),
      rw (← same) (
          omega (
            arith,
            first_line-length received,
            receive-length chunks 0 [] received refl (omega arith) found,
          )),
    )

-- No chunk is empty: `recv` returns an empty one at the end of the stream only.
abbrev pub NoEmpty : List Bytes → Type 0
NoEmpty chunks = All (λ chunk. is_empty chunk ≡ false) chunks

receive-stream :
    (chunks : List Bytes) (total : ℕ) (received : Bytes)
    → NoEmpty chunks
    → total + length (stream chunks) ≤ max_request_bytes
    → (result : Bytes) × (receive chunks total received ≡ ok result)
      × (first_line result ≡ first_line (received ++ stream chunks))
unfolding receive
receive-stream [] total received n le = (received, refl, rw append-nil)
receive-stream (chunk ∷ chunks) total received (n, ns) le =
    let fits : ltb max_request_bytes (total + length chunk) ≡ false =
      ground (arith, length-append chunk (stream chunks)) in
    elim (Bool-cases (has_newline chunk)) [
      | inl ends ↦ (
        received ++ chunk,
        rw (n, fits, ends) refl,
        rw (← append_assoc) (
            sym (
              first_line-append (received ++ chunk) (stream chunks)
                (has_newline-append received chunk ends))),
      )
      | inr more ↦
          let (result, e, same) =
            receive-stream chunks (total + length chunk) (received ++ chunk) ns
              (omega (arith, length-append chunk (stream chunks))) in
          (
            result,
            rw (n, fits, more) e,
            same ∙ ap first_line (append_assoc received chunk (stream chunks)),
          )
    ]

-- Where the stream has at most 65536 bytes, its cut into chunks does not matter: the request is the
-- stream up to its first newline.
pub request_line-stream :
    (chunks : List Bytes)
    → NoEmpty chunks
    → length (stream chunks) ≤ max_request_bytes
    → request_line chunks ≡ (
        if is_empty (first_line (stream chunks))
        then err (value_error "empty_request")
        else ok (first_line (stream chunks)))
unfolding request_line
request_line-stream chunks n le =
    let (result, e, same) = receive-stream chunks 0 [] n (omega arith) in rw (e, same) refl
