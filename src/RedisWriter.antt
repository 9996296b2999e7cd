-- ===== src/RedisWriter.antt =====
-- redis/RedisWriter.{h,cpp}: the positions and the orders of an account as texts of a database. A text
-- is the list of its characters' codes. The database's client and the function that splits a text
-- are parameters. What is appended to lists of the database, and the time as a text, is left out.
pub mod RoundTrip
mod Tests
use tradingapp.Prelude.{
  ℕ, Bool, true, false, ◌&&◌, Option, none, some, List, [], ◌∷◌, ◌++◌, ◌==◌, if◌then◌else◌,
}

abbrev pub Text : Type 0
Text = List ℕ

-- A database `D`. none is an exception, as when the connection is lost.
pub record Client (D : Type 0) : Type 0 where
  pub set : Text → Text → D → Option D
  pub get : Text → D → Option Text
  -- `boost::split` with one delimiter.
  pub split : ℕ → Text → List Text

abbrev pub comma : ℕ
comma = 44

abbrev pub colon : ℕ
colon = 58

-- "EQUITY"
abbrev pub equity : Text
equity = 69 ∷ 81 ∷ 85 ∷ 73 ∷ 84 ∷ 89 ∷ []

-- "0"
abbrev pub zero_text : Text
zero_text = 48 ∷ []

-- "**nonexistent-key**"
abbrev pub nonexistent_key : Text
nonexistent_key =
    42 ∷ 42 ∷ 110 ∷ 111 ∷ 110 ∷ 101 ∷ 120 ∷ 105 ∷ 115 ∷ 116 ∷ 101 ∷ 110 ∷ 116 ∷ 45 ∷ 107 ∷ 101 ∷ 121
    ∷ 42 ∷ 42 ∷ []

abbrev pub same_text : Text → Text → Bool
same_text [] [] = true
same_text (x ∷ xs) (y ∷ ys) = let rest = same_text xs ys in x == y && rest
same_text _ _ = false

pub record Position : Type 0 where
  pub type : Text
  pub reserved : Text
  pub account : Text
  pub underlier : Text
  pub root : Text
  pub expiration : Text
  pub strike : Text
  pub quantity : Text
  pub put_or_call : Text
  pub price : Text
  pub rif : Text
  pub pif : Text
  pub live_shares_buy : Text
  pub live_shares_sell : Text
  pub total_executed_shares : Text

pub record RedisOrderInfo : Type 0 where
  pub symbol : Text
  pub size : Text
  pub order_price : Text
  pub order_type : Text
  pub execution_time : Text
  pub ack_time : Text
  pub change_time : Text
  pub cancel_time : Text

-- Texts with commas between.
unfoldable pub join : List Text → Text
join [] = []
join (x ∷ []) = x
join (x ∷ y ∷ rest) = let tail = join (y ∷ rest) in x ++ comma ∷ tail

-- none where the program reads past the last of the texts.
unfoldable pub position_of : List Text → Option Position
position_of (t ∷ r ∷ a ∷ u ∷ o ∷ e ∷ s ∷ q ∷ c ∷ p ∷ []) = some (record {
  type = t;
  reserved = r;
  account = a;
  underlier = u;
  root = o;
  expiration = e;
  strike = s;
  quantity = q;
  put_or_call = c;
  price = p;
  rif = [];
  pif = [];
  live_shares_buy = zero_text;
  live_shares_sell = zero_text;
  total_executed_shares = zero_text;
})
position_of (t ∷ r ∷ a ∷ u ∷ o ∷ e ∷ s ∷ q ∷ c ∷ p ∷ i ∷ f ∷ []) = some (record {
  type = t;
  reserved = r;
  account = a;
  underlier = u;
  root = o;
  expiration = e;
  strike = s;
  quantity = q;
  put_or_call = c;
  price = p;
  rif = i;
  pif = f;
  live_shares_buy = zero_text;
  live_shares_sell = zero_text;
  total_executed_shares = zero_text;
})
position_of (t ∷ r ∷ a ∷ u ∷ o ∷ e ∷ s ∷ q ∷ c ∷ p ∷ i ∷ f ∷ lb ∷ ls ∷ x ∷ _) = some (record {
  type = t;
  reserved = r;
  account = a;
  underlier = u;
  root = o;
  expiration = e;
  strike = s;
  quantity = q;
  put_or_call = c;
  price = p;
  rif = i;
  pif = f;
  live_shares_buy = lb;
  live_shares_sell = ls;
  total_executed_shares = x;
})
position_of _ = none

unfoldable pub order_info_of : List Text → Option RedisOrderInfo
order_info_of (s ∷ n ∷ p ∷ t ∷ e ∷ a ∷ c ∷ x ∷ _) = some (record {
  symbol = s;
  size = n;
  order_price = p;
  order_type = t;
  execution_time = e;
  ack_time = a;
  change_time = c;
  cancel_time = x;
})
order_info_of _ = none

-- The value that `writeToRedis` writes.
abbrev pub after_equity : Position → List Text
after_equity p =
    [] ∷ p.account ∷ p.underlier ∷ p.underlier ∷ [] ∷ [] ∷ p.quantity ∷ [] ∷ p.price ∷ p.rif ∷ p.pif
    ∷ p.live_shares_buy ∷ p.live_shares_sell ∷ p.total_executed_shares ∷ []

abbrev pub position_texts : Position → List Text
position_texts p = equity ∷ after_equity p

abbrev pub order_texts : RedisOrderInfo → List Text
order_texts o =
    o.symbol ∷ o.size ∷ o.order_price ∷ o.order_type ∷ o.execution_time ∷ o.ack_time ∷ o.change_time
    ∷ o.cancel_time ∷ []

abbrev pub position_key : Position → Text
position_key p = p.account ++ colon ∷ p.underlier

abbrev pub order_key : Text → Text → Text
order_key user request_id = user ++ comma ∷ request_id

abbrev pub value_or : Option Text → Text
value_or none = nonexistent_key
value_or (some value) = value

module _ {D : Type 0} (client : Client D) where
  abbrev pub parse_stem1_value : Text → Option Position
  parse_stem1_value value = position_of (client.split comma value)

  abbrev pub parse_redis_order_info : Text → Option RedisOrderInfo
  parse_redis_order_info value = order_info_of (client.split comma value)

module _ {D : Type 0} (client : Client D) (is_redis_enabled : Bool) where
  abbrev pub written : D → Option D → Bool × D
  written d none = (false, d)
  written d (some e) = (true, e)

  -- `writeToRedis`, whose nine arguments are fields of the position.
  unfoldable pub write_to_redis : Position → D → Bool × D
  write_to_redis p d =
      if is_redis_enabled
      then written d (client.set (position_key p) (join (position_texts p)) d)
      else (false, d)

  unfoldable pub read_key_from_redis : Text → D → Text
  read_key_from_redis key d =
      if is_redis_enabled then value_or (client.get key d) else nonexistent_key

  -- Reading a position, and writing it with a change. The answer of the write is not looked at.
  abbrev pub rewrite_position : (Position → Position) → Text → D → Option (Bool × D)
  rewrite_position change value d = elim (parse_stem1_value client value) [
    | none ↦ none
    | some p ↦ some (true, (write_to_redis (change p) d).1)
  ]

  unfoldable pub write_rif_to_redis : Text → Text → D → Option (Bool × D)
  unfolding write_to_redis
  write_rif_to_redis key rif d =
      let value = read_key_from_redis key d in
      if same_text value nonexistent_key
      then some (false, d)
      else rewrite_position (λ p. record p { rif = rif }) value d

  unfoldable pub write_pif_to_redis : Text → Text → D → Option (Bool × D)
  unfolding write_to_redis
  write_pif_to_redis key pif d =
      let value = read_key_from_redis key d in
      if same_text value nonexistent_key
      then some (false, d)
      else rewrite_position (λ p. record p { pif = pif }) value d

  -- A new entry has "0" in the fields that the call does not give.
  unfoldable pub new_live_shares : List Text → Text → Text → Text → D → Option (Bool × D)
  unfolding write_to_redis
  new_live_shares (user ∷ symbol ∷ _) buy sell total d = some (
      write_to_redis
        (record {
          type = equity;
          reserved = [];
          account = user;
          underlier = symbol;
          root = symbol;
          expiration = [];
          strike = [];
          quantity = zero_text;
          put_or_call = [];
          price = zero_text;
          rif = zero_text;
          pif = zero_text;
          live_shares_buy = buy;
          live_shares_sell = sell;
          total_executed_shares = total;
        })
        d)
  new_live_shares _ buy sell total d = none

  unfoldable pub write_live_shares_info : Text → Text → Text → Text → D → Option (Bool × D)
  unfolding write_to_redis new_live_shares
  write_live_shares_info key buy sell total d =
      let value = read_key_from_redis key d in
      if is_redis_enabled
      then (if same_text value nonexistent_key
          then new_live_shares (client.split colon key) buy sell total d
          else rewrite_position
              (λ p. record p {
                live_shares_buy = buy;
                live_shares_sell = sell;
                total_executed_shares = total;
              })
              value d)
      else some (false, d)

  unfoldable pub write_order_info_to_redis : Text → Text → RedisOrderInfo → D → Bool × D
  write_order_info_to_redis user request_id o d =
      if is_redis_enabled
      then written d (client.set (order_key user request_id) (join (order_texts o)) d)
      else (false, d)

  -- The three updates of an order's times.
  unfoldable pub update_order :
      (RedisOrderInfo → RedisOrderInfo) → Text → Text → D → Option (Bool × D)
  unfolding write_order_info_to_redis
  update_order change user request_id d =
      let value = read_key_from_redis (order_key user request_id) d in
      if same_text value nonexistent_key
      then some (false, d)
      else elim (parse_redis_order_info client value) [
        | none ↦ none
        | some o ↦ some (true, (write_order_info_to_redis user request_id (change o) d).1)
      ]

  abbrev pub update_order_cancel_time : Text → Text → Text → D → Option (Bool × D)
  update_order_cancel_time user request_id time d =
      update_order (λ o. record o { cancel_time = time }) user request_id d

  abbrev pub update_order_exec_time : Text → Text → Text → D → Option (Bool × D)
  update_order_exec_time user request_id time d =
      update_order (λ o. record o { execution_time = time }) user request_id d

  abbrev pub update_order_change_time : Text → Text → Text → D → Option (Bool × D)
  update_order_change_time user request_id time d =
      update_order (λ o. record o { change_time = time }) user request_id d
