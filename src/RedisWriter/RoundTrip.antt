-- ===== src/RedisWriter/RoundTrip.antt =====
-- What is written to the database is read again.
use tradingapp.Prelude.{
  none, ℕ, ◌≤◌, ◌≡◌, refl, true, false, some, List, [], ◌∷◌, ◌++◌, ◌==◌, arith, ◌⊎◌, Option-cases,
  inl, inr,
}
use tradingapp.RedisWriter.{
  Text, Client, Position, comma, equity, join, position_of, position_texts, after_equity,
  position_key, write_to_redis, read_key_from_redis, parse_stem1_value, write_rif_to_redis,
  write_pif_to_redis, same_text, nonexistent_key,
}

-- The text does not have the character.
abbrev pub IsFree : ℕ → Text → Type 0
IsFree c [] = 0 ≤ 0
IsFree c (x ∷ xs) = ((x == c) ≡ false) × IsFree c xs

abbrev pub AllFree : ℕ → List Text → Type 0
AllFree c [] = 0 ≤ 0
AllFree c (x ∷ xs) = IsFree c x × AllFree c xs

-- What the client's library documents: a text that was set is got, and a split cuts at every
-- delimiter.
pub record IsClient {D : Type 0} (client : Client D) : Type 0 where
  pub get-set :
      (key value : Text) (d e : D) → client.set key value d ≡ some e → client.get key e ≡ some value
  pub split_last : (c : ℕ) (x : Text) → IsFree c x → client.split c x ≡ x ∷ []
  pub split_first :
      (c : ℕ) (x rest : Text)
      → IsFree c x
      → client.split c (x ++ c ∷ rest) ≡ x ∷ client.split c rest

-- The position as `writeToRedis` writes it: the fields that are not arguments are filled in.
abbrev pub stored : Position → Position
stored p = record p {
  type = equity;
  reserved = [];
  root = p.underlier;
  expiration = [];
  strike = [];
  put_or_call = [];
}

module _ {D : Type 0} (client : Client D) where
  -- What a rewrite of a stored position leaves: the old database, if the client has failed to set the
  -- entry of the changed position, and else one whose entry is parsed into the changed position.
  abbrev pub IsRewritten : (Position → Position) → Position → D → D → Type 0
  IsRewritten change p d e =
      ((client.set (position_key p) (join (position_texts (change (stored p)))) d ≡ none) × (e ≡ d))
      ⊎ (parse_stem1_value client (read_key_from_redis client true (position_key p) e)
          ≡ some (change (stored p)))

module _ {D : Type 0} (client : Client D) (laws : IsClient client) where
  split-join :
      (x : Text) (xs : List Text)
      → AllFree comma (x ∷ xs)
      → client.split comma (join (x ∷ xs)) ≡ x ∷ xs
  unfolding join
  split-join x [] (first, _) = laws.split_last comma x first
  split-join x (y ∷ rest) (first, others) =
      let cut = laws.split_first comma x (join (y ∷ rest)) first in
      let kept = split-join y rest others in rw (cut, kept)

  join-differs : (p : Position) → same_text (join (position_texts p)) nonexistent_key ≡ false
  unfolding join
  join-differs p = refl

  stored-read :
      (p : Position) (d e : D)
      → AllFree comma (position_texts p)
      → client.set (position_key p) (join (position_texts p)) d ≡ some e
      → (read_key_from_redis client true (position_key p) e ≡ join (position_texts p))
        × (parse_stem1_value client (join (position_texts p)) ≡ some (stored p))
  unfolding read_key_from_redis position_of
  stored-read p d e free set =
      let got = laws.get-set (position_key p) (join (position_texts p)) d e set in
      let cut = split-join equity (after_equity p) free in (rw got refl, rw cut refl)

  write_to_redis-stored :
      (p : Position) (d e : D)
      → AllFree comma (position_texts p)
      → write_to_redis client true p d ≡ (true, e)
      → (read_key_from_redis client true (position_key p) e ≡ join (position_texts p))
        × (parse_stem1_value client (join (position_texts p)) ≡ some (stored p))
  unfolding write_to_redis
  write_to_redis-stored p d e free wrote =
      elim (Option-cases (client.set (position_key p) (join (position_texts p)) d)) [
        | inl lost ↦ ground arith
        | inr (f, set) ↦
            let same : f ≡ e = ground (arith, set) in
            let (got, parsed) = stored-read p d f free set in (rw same at got, parsed)
      ]

  -- Writing and reading a position, with a database that is enabled and texts without commas: when the
  -- write has succeeded, the position's key has a value that is parsed into the position that was
  -- written, each of the nine arguments in its own field.
  pub write_to_redis-reads :
      (p : Position) (d e : D)
      → AllFree comma (position_texts p)
      → write_to_redis client true p d ≡ (true, e)
      → parse_stem1_value client (read_key_from_redis client true (position_key p) e)
        ≡ some (stored p)
  write_to_redis-reads p d e free wrote =
      let (got, parsed) = write_to_redis-stored p d e free wrote in rw got parsed

  rewrite-IsRewritten :
      (p q : Position) (d : D)
      → position_key q ≡ position_key p
      → AllFree comma (position_texts q)
      → let e = (write_to_redis client true q d).1 in
        ((client.set (position_key p) (join (position_texts q)) d ≡ none) × (e ≡ d))
        ⊎ (parse_stem1_value client (read_key_from_redis client true (position_key p) e)
            ≡ some (stored q))
  unfolding write_to_redis
  rewrite-IsRewritten p q d same free =
      elim (Option-cases (client.set (position_key q) (join (position_texts q)) d)) [
        | inl lost ↦ inl (rw same at lost, rw lost refl)
        | inr (f, set) ↦
            let (got, parsed) = stored-read q d f free set in
            let read = rw same at got in inr (rw (set, read) parsed)
      ]

  -- With an enabled database and texts without commas: after a position was written, writing its round
  -- in force, or its price in force, answers true. Either the client fails to set the entry with the
  -- new text, and the database is as it was, or the entry is then parsed into the position with that
  -- field changed and no other.
  pub write_force-keeps :
      (p : Position) (text : Text) (d e : D)
      → AllFree comma (position_texts p)
      → IsFree comma text
      → write_to_redis client true p d ≡ (true, e)
      → ((u : D) × (write_rif_to_redis client true (position_key p) text e ≡ some (true, u))
          × IsRewritten client (λ q. record q { rif = text }) p e u)
        × ((v : D) × (write_pif_to_redis client true (position_key p) text e ≡ some (true, v))
            × IsRewritten client (λ q. record q { pif = text }) p e v)
  unfolding write_rif_to_redis write_pif_to_redis
  write_force-keeps p text d e free clean wrote =
      let (got, parsed) = write_to_redis-stored p d e free wrote in
      let rif = record (stored p) { rif = text } in
      let pif = record (stored p) { pif = text } in
      (
        (
          (write_to_redis client true rif e).1,
          ground (arith, got, join-differs p, parsed),
          rewrite-IsRewritten p rif e refl (ground arith),
        ),
        (
          (write_to_redis client true pif e).1,
          ground (arith, got, join-differs p, parsed),
          rewrite-IsRewritten p pif e refl (ground arith),
        ),
      )
