-- ===== src/Common/Types.antt =====
-- common/types.h: identifiers, sizes, sides and algorithm names. An identifier of w bits is a
-- number; a price is an integer.
use Prim.Native.String.{String}
use text.Mathlib.Text.{◌==◌ as str_eq}
use low_latency_electronic_t.Prelude.{
  ℕ, ◌*◌, ◌-◌, ◌^◌, ◌≡◌, refl, ℤ, pos, negsuc, List, [], ◌∷◌, if◌then◌else◌,
}

abbrev pub me_max_tickers : ℕ
me_max_tickers = 8

abbrev pub me_max_client_updates : ℕ
me_max_client_updates = 256 * 1024

abbrev pub me_max_market_updates : ℕ
me_max_market_updates = 256 * 1024

abbrev pub me_max_num_clients : ℕ
me_max_num_clients = 256

abbrev pub me_max_order_ids : ℕ
me_max_order_ids = 1024 * 1024

abbrev pub me_max_price_levels : ℕ
me_max_price_levels = 131072

abbrev pub order_id_invalid : ℕ
order_id_invalid = 2 ^ 64 - 1

abbrev pub ticker_id_invalid : ℕ
ticker_id_invalid = 2 ^ 32 - 1

abbrev pub client_id_invalid : ℕ
client_id_invalid = 2 ^ 32 - 1

abbrev pub price_invalid : ℤ
price_invalid = pos (2 ^ 63 - 1)

abbrev pub qty_invalid : ℕ
qty_invalid = 2 ^ 32 - 1

abbrev pub priority_invalid : ℕ
priority_invalid = 2 ^ 64 - 1

pub data Side : Type 0 where
  invalid buy sell max : Side

unfoldable pub side_to_string : Side → String
side_to_string Side.buy = "BUY"
side_to_string Side.sell = "SELL"
side_to_string Side.invalid = "INVALID"
side_to_string Side.max = "MAX"

-- `static_cast<int>(side)`.
abbrev pub side_to_value : Side → ℤ
side_to_value Side.invalid = pos 0
side_to_value Side.buy = pos 1
side_to_value Side.sell = negsuc 0
side_to_value Side.max = pos 2

-- `static_cast<size_t>(static_cast<int>(side) + 1)`: the index of a side in an array.
abbrev pub side_to_index : Side → ℕ
side_to_index Side.invalid = 1
side_to_index Side.buy = 2
side_to_index Side.sell = 0
side_to_index Side.max = 3

pub data AlgoType : Type 0 where
  invalid random maker taker max : AlgoType

unfoldable pub algo_type_to_string : AlgoType → String
algo_type_to_string AlgoType.random = "RANDOM"
algo_type_to_string AlgoType.maker = "MAKER"
algo_type_to_string AlgoType.taker = "TAKER"
algo_type_to_string AlgoType.invalid = "INVALID"
algo_type_to_string AlgoType.max = "MAX"

-- The values from INVALID to MAX, in the order in which the loop tries them.
abbrev algo_types : List AlgoType
algo_types =
    AlgoType.invalid ∷ AlgoType.random ∷ AlgoType.maker ∷ AlgoType.taker ∷ AlgoType.max ∷ []

search_algo_type : List AlgoType → String → AlgoType
search_algo_type [] str = AlgoType.invalid
search_algo_type (t ∷ ts) str =
    if str_eq (algo_type_to_string t) str then t else search_algo_type ts str

pub string_to_algo_type : String → AlgoType
unfolding search_algo_type algo_type_to_string
string_to_algo_type str = search_algo_type algo_types str

-- The name of an algorithm is read back as that algorithm.
string_to_algo_type-algo_type_to_string :
    (t : AlgoType) → string_to_algo_type (algo_type_to_string t) ≡ t
unfolding string_to_algo_type
string_to_algo_type-algo_type_to_string AlgoType.invalid = refl
string_to_algo_type-algo_type_to_string AlgoType.random = refl
string_to_algo_type-algo_type_to_string AlgoType.maker = refl
string_to_algo_type-algo_type_to_string AlgoType.taker = refl
string_to_algo_type-algo_type_to_string AlgoType.max = refl
