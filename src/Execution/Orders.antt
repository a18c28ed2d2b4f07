-- ===== src/Execution/Orders.antt =====
-- The order store: services/execution_engine/orders, the lifecycle of order.py and the operations
-- of order_manager.py on the orders table. DynamoDB is the interface of `Database`; ids and the
-- numbers that the code only stores are naturals.
pub mod Status
pub mod Database
pub mod Manager
pub mod Lifecycle
pub mod Reservation
pub mod Transition
mod Tests
