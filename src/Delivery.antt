-- ===== src/Delivery.antt =====
-- Saving an article to Linkding: the local save, the delivery row that is owed for it, the HTTP
-- exchange, the worker's drain (feeds/services.py from `save_article` on, and the models
-- `SavedArticle` and `LinkdingDelivery` of feeds/models.py).
pub mod Row
pub mod Backoff
pub mod Json
pub mod Remote
pub mod Exchange
pub mod Attempt
pub mod Save
pub mod Drain
mod Examples
