-- ===== src/Exchange/Messages.antt =====
-- exchange/order_server/client_request.h, exchange/order_server/client_response.h and
-- exchange/market_data/market_update.h: the messages between the threads and on the wire.
use Prim.Native.String.{String}
use low_latency_electronic_t.Prelude.{ℕ, ℤ}
use low_latency_electronic_t.Common.Types.{Side}
use low_latency_electronic_t.Common.Types

pub data ClientRequestType : Type 0 where
  invalid new cancel : ClientRequestType

unfoldable pub client_request_type_to_string : ClientRequestType → String
client_request_type_to_string ClientRequestType.new = "NEW"
client_request_type_to_string ClientRequestType.cancel = "CANCEL"
client_request_type_to_string ClientRequestType.invalid = "INVALID"

pub record MeClientRequest : Type 0 where
  pub type : ClientRequestType
  pub client_id : ℕ
  pub ticker_id : ℕ
  pub order_id : ℕ
  pub side : Side
  pub price : ℤ
  pub qty : ℕ

-- The wire format: a sequence number for each client, and the request.
pub record OmClientRequest : Type 0 where
  pub seq_num : ℕ
  pub me_client_request : MeClientRequest

pub data ClientResponseType : Type 0 where
  invalid accepted canceled filled cancel_rejected : ClientResponseType

unfoldable pub client_response_type_to_string : ClientResponseType → String
client_response_type_to_string ClientResponseType.accepted = "ACCEPTED"
client_response_type_to_string ClientResponseType.canceled = "CANCELED"
client_response_type_to_string ClientResponseType.filled = "FILLED"
client_response_type_to_string ClientResponseType.cancel_rejected = "CANCEL_REJECTED"
client_response_type_to_string ClientResponseType.invalid = "INVALID"

pub record MeClientResponse : Type 0 where
  pub type : ClientResponseType
  pub client_id : ℕ
  pub ticker_id : ℕ
  pub client_order_id : ℕ
  pub market_order_id : ℕ
  pub side : Side
  pub price : ℤ
  pub exec_qty : ℕ
  pub leaves_qty : ℕ

pub data MarketUpdateType : Type 0 where
  invalid clear add modify cancel trade snapshot_start snapshot_end : MarketUpdateType

unfoldable pub market_update_type_to_string : MarketUpdateType → String
market_update_type_to_string MarketUpdateType.clear = "CLEAR"
market_update_type_to_string MarketUpdateType.add = "ADD"
market_update_type_to_string MarketUpdateType.modify = "MODIFY"
market_update_type_to_string MarketUpdateType.cancel = "CANCEL"
market_update_type_to_string MarketUpdateType.trade = "TRADE"
market_update_type_to_string MarketUpdateType.snapshot_start = "SNAPSHOT_START"
market_update_type_to_string MarketUpdateType.snapshot_end = "SNAPSHOT_END"
market_update_type_to_string MarketUpdateType.invalid = "INVALID"

pub record MeMarketUpdate : Type 0 where
  pub type : MarketUpdateType
  pub order_id : ℕ
  pub ticker_id : ℕ
  pub side : Side
  pub price : ℤ
  pub qty : ℕ
  pub priority : ℕ

-- `MEMarketUpdate{}`.
abbrev pub default_market_update : MeMarketUpdate
default_market_update = record {
  type = MarketUpdateType.invalid;
  order_id = Types.order_id_invalid;
  ticker_id = Types.ticker_id_invalid;
  side = Side.invalid;
  price = Types.price_invalid;
  qty = Types.qty_invalid;
  priority = Types.priority_invalid;
}

-- The wire format: a sequence number, and the update.
pub record MdpMarketUpdate : Type 0 where
  pub seq_num : ℕ
  pub me_market_update : MeMarketUpdate
