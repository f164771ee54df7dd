-- ===== src/Tests.antt =====
-- Runs at concrete inputs, and the theorems at inputs that meet their hypotheses.
mod ContainerRuns
mod DotenvRuns
mod AuthRuns
mod RetryRuns
mod UploadRuns
mod HeadersRuns
mod WebProxyRuns
mod BuilderRuns
mod OdmRuns
mod OdmHistoryRuns
mod CloudRuns
mod GcpRuns
mod ServerRuns
mod ServingRuns
mod EmbedRuns
mod CliRuns
mod TestutilRuns
