-- ===== src/Trading/Consumer/Live.antt =====
-- The incremental stream without and with a gap (trading/market_data/market_data_consumer.cpp).
use low_latency_electronic_t.Exchange.MarketData.Publisher
use low_latency_electronic_t.Trading.Consumer.{Consumer}
