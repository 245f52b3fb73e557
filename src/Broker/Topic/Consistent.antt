-- ===== src/Broker/Topic/Consistent.antt =====
-- Where a publish by the hash ring goes.
use cascade.Broker.HashRing.{HashRing}
use cascade.Broker.Topic.{Topic}
