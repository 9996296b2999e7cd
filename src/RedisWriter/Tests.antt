-- ===== src/RedisWriter/Tests.antt =====
-- A database that holds the last value that was set, and the theorems at it.
use tradingapp.Prelude.{ℕ, ◌≡◌, refl, true, some, List, [], ◌∷◌, ◌++◌, ◌==◌, arith, if◌then◌else◌}
use tradingapp.RedisWriter.{
  Text, Client, Position, join, position_key, parse_stem1_value, read_key_from_redis,
  write_to_redis, write_rif_to_redis, same_text, nonexistent_key,
}
use tradingapp.RedisWriter.RoundTrip.{
  IsFree, IsClient, stored, IsRewritten, write_to_redis-reads, write_force-keeps,
}

abbrev begin_with : ℕ → List Text → List Text
begin_with x [] = (x ∷ []) ∷ []
begin_with x (first ∷ rest) = (x ∷ first) ∷ rest

abbrev cut : ℕ → Text → List Text
cut c [] = [] ∷ []
cut c (x ∷ xs) = let rest = cut c xs in if x == c then [] ∷ rest else begin_with x rest

cut_last : (c : ℕ) (x : Text) → IsFree c x → cut c x ≡ x ∷ []
cut_last c [] free = refl
cut_last c (x ∷ xs) (differs, free) = ground (arith, cut_last c xs free)

cut_first : (c : ℕ) (x rest : Text) → IsFree c x → cut c (x ++ c ∷ rest) ≡ x ∷ cut c rest
cut_first c [] rest free = ground arith
cut_first c (x ∷ xs) rest (differs, free) = ground (arith, cut_first c xs rest free)

same_text_refl : (x : Text) → same_text x x ≡ true
same_text_refl [] = refl
same_text_refl (x ∷ xs) = ground (arith, same_text_refl xs)

-- The key and the value that were set last.
abbrev last_set : Client (Text × Text)
last_set = record {
  set = λ key value d. some (key, value);
  get = λ key d. some (if same_text key d.0 then d.1 else nonexistent_key);
  split = cut;
}

last_set-IsClient : IsClient last_set
last_set-IsClient = record {
  get-set = λ key value d e set. ground (arith, same_text_refl key);
  split_last = cut_last;
  split_first = cut_first;
}

-- 100 shares at "7" of the symbol "A" of the account "B".
abbrev position : Position
position = record {
  type = [];
  reserved = [];
  account = 66 ∷ [];
  underlier = 65 ∷ [];
  root = [];
  expiration = [];
  strike = [];
  quantity = 49 ∷ 48 ∷ 48 ∷ [];
  put_or_call = [];
  price = 55 ∷ [];
  rif = 48 ∷ [];
  pif = 48 ∷ [];
  live_shares_buy = 48 ∷ [];
  live_shares_sell = 48 ∷ [];
  total_executed_shares = 48 ∷ [];
}

abbrev nothing : Text × Text
nothing = ([], [])

abbrev after_write : Text × Text
after_write = (write_to_redis last_set true position nothing).1

write_to_redis-reads_example :
    parse_stem1_value last_set
      (read_key_from_redis last_set true (position_key position) after_write)
    ≡ some (stored position)
unfolding write_to_redis join
write_to_redis-reads_example =
    write_to_redis-reads last_set last_set-IsClient position nothing after_write (ground arith) refl

-- The new text is "9".
write_force-keeps_example :
    ((u : Text × Text) × (write_rif_to_redis last_set true
          (position_key position)
          (57 ∷ [])
          after_write
        ≡ some (true, u))
      × IsRewritten last_set (λ q. record q { rif = 57 ∷ [] }) position after_write u)
unfolding write_to_redis join
write_force-keeps_example =
    (write_force-keeps last_set last_set-IsClient position (57 ∷ []) nothing after_write
      (ground arith) (ground arith) refl).0
