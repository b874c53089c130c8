-- ===== src/Migrations/Shopping.antt =====
-- The migration of the shop (src/database/migrations/
-- 1782910000000-AddCartsProductsOrderItemsAndCancelled.ts): products, carts, the lines of carts and
-- of orders, and the order status CANCELLED.
use order_lifecycle_backend.Prelude.{false, none, [], ◌∷◌}
use order_lifecycle_backend.Migrations.Schema.{
  Migration, plain, cascade, restrict, primary_key, unique, foreign_key, add_value, create_table,
  drop_table, create_index, drop_index, add_constraint, drop_constraint, required, optional,
  defaulted,
}

abbrev pub add_carts : Migration
add_carts = record {
  name = "AddCartsProductsOrderItemsAndCancelled1782910000000";
  up =
      add_value "orders_status_enum" "CANCELLED"
      ∷ create_table record {
        name = "products";
        columns =
            defaulted "id" (plain "uuid") "uuid_generate_v4()"
            ∷ required "name" (plain "character varying")
            ∷ required "sku" (plain "character varying")
            ∷ required "stock" (plain "integer")
            ∷ defaulted "createdAt" (plain "TIMESTAMP") "now()"
            ∷ defaulted "updatedAt" (plain "TIMESTAMP") "now()"
            ∷ [];
        constraints =
            record { name = "UQ_products_sku"; kind = unique ("sku" ∷ []) }
            ∷ record { name = "PK_products_id"; kind = primary_key ("id" ∷ []) }
            ∷ [];
      }
      ∷ create_table record {
        name = "carts";
        columns =
            defaulted "id" (plain "uuid") "uuid_generate_v4()"
            ∷ required "userId" (plain "uuid")
            ∷ optional "checkedOutAt" (plain "TIMESTAMP WITH TIME ZONE")
            ∷ defaulted "createdAt" (plain "TIMESTAMP") "now()"
            ∷ defaulted "updatedAt" (plain "TIMESTAMP") "now()"
            ∷ [];
        constraints = record { name = "PK_carts_id"; kind = primary_key ("id" ∷ []) } ∷ [];
      }
      ∷ create_index record {
        name = "IDX_carts_userId";
        table = "carts";
        columns = "userId" ∷ [];
        is_unique = false;
        predicate = none;
      }
      ∷ add_constraint "carts"
          (record { name = "FK_carts_userId"; kind = foreign_key "userId" "users" cascade })
      ∷ create_table record {
        name = "cart_items";
        columns =
            defaulted "id" (plain "uuid") "uuid_generate_v4()"
            ∷ required "cartId" (plain "uuid")
            ∷ required "productId" (plain "uuid")
            ∷ required "quantity" (plain "integer")
            ∷ [];
        constraints =
            record {
              name = "UQ_cart_items_cartId_productId";
              kind = unique ("cartId" ∷ "productId" ∷ []);
            }
            ∷ record { name = "PK_cart_items_id"; kind = primary_key ("id" ∷ []) }
            ∷ [];
      }
      ∷ create_index record {
        name = "IDX_cart_items_cartId";
        table = "cart_items";
        columns = "cartId" ∷ [];
        is_unique = false;
        predicate = none;
      }
      ∷ add_constraint "cart_items"
          (record { name = "FK_cart_items_cartId"; kind = foreign_key "cartId" "carts" cascade })
      ∷ add_constraint "cart_items" (record {
        name = "FK_cart_items_productId";
        kind = foreign_key "productId" "products" cascade;
      })
      ∷ create_table record {
        name = "order_items";
        columns =
            defaulted "id" (plain "uuid") "uuid_generate_v4()"
            ∷ required "orderId" (plain "uuid")
            ∷ required "productId" (plain "uuid")
            ∷ required "productName" (plain "character varying")
            ∷ required "quantity" (plain "integer")
            ∷ [];
        constraints = record { name = "PK_order_items_id"; kind = primary_key ("id" ∷ []) } ∷ [];
      }
      ∷ create_index record {
        name = "IDX_order_items_orderId";
        table = "order_items";
        columns = "orderId" ∷ [];
        is_unique = false;
        predicate = none;
      }
      ∷ add_constraint "order_items" (record {
        name = "FK_order_items_orderId";
        kind = foreign_key "orderId" "orders" cascade;
      })
      ∷ add_constraint "order_items" (record {
        name = "FK_order_items_productId";
        kind = foreign_key "productId" "products" restrict;
      })
      ∷ [];
  down =
      drop_constraint "order_items" "FK_order_items_productId"
      ∷ drop_constraint "order_items" "FK_order_items_orderId"
      ∷ drop_index "IDX_order_items_orderId"
      ∷ drop_table "order_items"
      ∷ drop_constraint "cart_items" "FK_cart_items_productId"
      ∷ drop_constraint "cart_items" "FK_cart_items_cartId"
      ∷ drop_index "IDX_cart_items_cartId"
      ∷ drop_table "cart_items"
      ∷ drop_constraint "carts" "FK_carts_userId"
      ∷ drop_index "IDX_carts_userId"
      ∷ drop_table "carts"
      ∷ drop_table "products"
      ∷ [];
}
