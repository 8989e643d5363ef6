-- ===== src/Items.antt =====
-- services/item_service.py: uploads, re-embedding and deletion of a workspace's items. `V` is a value
-- of an item's JSON. The ids that uuid4 draws are arguments; a statement that is sent in chunks of
-- rows is one function on the table.
pub mod Vectors
pub mod Uploads
pub mod Orphans
