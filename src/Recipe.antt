-- ===== src/Recipe.antt =====
-- The recipes of the playground: each adds its services to a manifest.
pub mod Lone
pub mod BuilderNet
pub mod OpStack
