-- ===== src/Entities.antt =====
-- The rows that the services read and write (src/entities), and the events that they exchange
-- (src/modules/messaging/events/order-events.ts). Identifiers are UUID strings that the code only
-- compares, so each is a number; timestamps are milliseconds.
use order_lifecycle_backend.Prelude.{ℕ, String, Bool, Option, List}

-- src/entities/order/OrderStatus.ts
pub data OrderStatus : Type 0 where
  pending reserved paid completed failed cancelled : OrderStatus

pub record OrderItem : Type 0 where
  pub id : ℕ
  pub order_id : ℕ
  pub product_id : ℕ
  pub product_name : String
  pub quantity : ℕ

-- `items` is the joined relation: it is absent unless a query asks for it. `payment_text` says that
-- `paymentInitiatedAt` is the string of the JSON of a cached order instead of a Date; a row has a
-- Date.
pub record Order : Type 0 where
  pub id : ℕ
  pub user_id : ℕ
  pub status : OrderStatus
  pub payment_initiated_at : Option ℕ
  pub payment_text : Bool
  pub items : Option (List OrderItem)
  pub created_at : ℕ
  pub updated_at : ℕ

pub record Product : Type 0 where
  pub id : ℕ
  pub name : String
  pub sku : String
  pub stock : ℕ
  pub active : Bool

-- `checked_out_at` is null while the cart is open.
pub record Cart : Type 0 where
  pub id : ℕ
  pub user_id : ℕ
  pub checked_out_at : Option ℕ

pub record CartItem : Type 0 where
  pub cart_id : ℕ
  pub product_id : ℕ
  pub quantity : ℕ

-- `authorized` is null while the charge is in flight.
pub record PaymentAuthorization : Type 0 where
  pub order_id : ℕ
  pub authorized : Option Bool
  pub decline_reason : Option String
  pub created_at : ℕ

-- The four inbox consumer keys.
pub data Consumer : Type 0 where
  inventory payment completion email : Consumer

pub record ProcessedMessage : Type 0 where
  pub message_id : ℕ
  pub consumer : Consumer

-- A line as the order events carry it, and as reservation and restore read it.
pub record StockLine : Type 0 where
  pub product_id : ℕ
  pub quantity : ℕ

-- `ORDER_EXCHANGE`, and its dead-letter pair `ORDER_DLX`.
pub data Exchange : Type 0 where
  order_exchange order_dlx : Exchange

pub data RoutingKey : Type 0 where
  created inventory_reserved payment_processed completed failed : RoutingKey

-- The shape of InventoryReserved, PaymentProcessed and OrderCompleted.
pub record OrderEvent : Type 0 where
  pub order_id : ℕ
  pub user_id : ℕ
  pub occurred_at : ℕ

pub record OrderCreatedEvent : Type 0 where
  pub order_id : ℕ
  pub user_id : ℕ
  pub items : List StockLine
  pub occurred_at : ℕ

pub record OrderFailedEvent : Type 0 where
  pub order_id : ℕ
  pub user_id : ℕ
  pub reason : String
  pub occurred_at : ℕ

pub data Payload : Type 0 where
  order_created : OrderCreatedEvent → Payload
  order_event : OrderEvent → Payload
  order_failed : OrderFailedEvent → Payload

pub record OutboxMessage : Type 0 where
  pub id : ℕ
  pub exchange : Exchange
  pub routing_key : RoutingKey
  pub payload : Payload
  pub correlation_id : ℕ
  pub created_at : ℕ
  pub published_at : Option ℕ
