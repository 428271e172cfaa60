-- ===== src/Lora.antt =====
-- The training side: src/loratrain/src/loratrain/.
pub mod Safetensors
pub mod Weights
